-- ===== src/Links/Chains.antt =====
-- adb_filesystem.go, `readLinkRecursively`: the chain of links that it follows, and how long one it
-- follows.
use adbfs.Base.{
  ℕ, zero, suc, ◌+◌, ◌-◌, ◌≤◌, ◌≡◌, refl, ap, subst, ◌∙◌, true, false, Text, arith, Bool-cases, inl,
  inr, some, ◌↔◌,
}
use adbfs.Errors.{Result, ok, err, ErrUtil, link_too_deep, to_errno, eloop}
use adbfs.Device.{DeviceClient, DirEntry}
use adbfs.Links.{
  is_symlink, read_link, after_stat, after_link, follow, read_link_recursively, started,
  max_link_resolve_depth,
}

module _ {W : Type 0} (u : ErrUtil) (d : DeviceClient W) where
  -- From an entry that has been stated, so many links lead to another.
  pub data Chain : ℕ → Text → DirEntry → W → Text → DirEntry → W → Type 0 where
    here : {path : Text} {e : DirEntry} {w : W} → Chain 0 path e w path e w
    link :
        {n : ℕ} {path mid end : Text} {e e' last : DirEntry} {w w1 w2 v : W}
        → is_symlink e ≡ true
        → read_link u d path w ≡ (ok mid, w1)
        → d.stat mid w1 ≡ (ok e', w2)
        → Chain n mid e' w2 end last v
        → Chain (suc n) path e w end last v

  follow-link :
      (left : ℕ) (path mid : Text) (e e' : DirEntry) (w w1 w2 : W)
      → is_symlink e ≡ true
      → read_link u d path w ≡ (ok mid, w1)
      → d.stat mid w1 ≡ (ok e', w2)
      → follow u d (suc left) path e w ≡ follow u d left mid e' w2
  unfolding follow after_link after_stat
  follow-link left path mid e e' w w1 w2 s l t = rw (s, l, t)

  follow-target :
      (left : ℕ) (path : Text) (e : DirEntry) (w : W)
      → is_symlink e ≡ false
      → follow u d left path e w ≡ (ok (path, e), w)
  unfolding follow
  follow-target zero path e w s = rw s
  follow-target (suc left) path e w s = rw s

  follow-Chain :
      {n : ℕ} {path end : Text} {e last : DirEntry} {w v : W} (left total : ℕ)
      → Chain n path e w end last v
      → total ≡ n + left
      → follow u d total path e w ≡ follow u d left end last v
  follow-Chain left total (here {path} {e} {w}) same =
      ap (λ n. follow u d n path e w) (omega (arith, same))
  follow-Chain left zero (link s l t c) same = absurd (omega (arith, same))
  follow-Chain left (suc total)
        (link {n} {path} {mid} {end} {e} {e'} {last} {w} {w1} {w2} {v} s l t c) same =
      follow-link total path mid e e' w w1 w2 s l t
      ∙ follow-Chain left total c (omega (arith, same))

  stat_lem :
      (again : Text → DirEntry → W → Result (Text × DirEntry) × W) (mid : Text)
      (r : Result DirEntry × W) (x : Text × DirEntry) (v : W)
      → after_stat u d again mid r ≡ (ok x, v)
      → (e' : DirEntry) × (w2 : W) × (r ≡ (ok e', w2)) × (again mid e' w2 ≡ (ok x, v))
  unfolding after_stat
  stat_lem again mid (ok e', w2) x v h = (e', w2, refl, h)
  stat_lem again mid (err e, w2) x v h = absurd (cc)

  link_lem :
      (again : Text → DirEntry → W → Result (Text × DirEntry) × W) (r : Result Text × W)
      (x : Text × DirEntry) (v : W)
      → after_link u d again r ≡ (ok x, v)
      → (mid : Text) × (w1 : W) × (r ≡ (ok mid, w1))
        × (e' : DirEntry) × (w2 : W) × (d.stat mid w1 ≡ (ok e', w2))
        × (again mid e' w2 ≡ (ok x, v))
  unfolding after_link
  link_lem again (ok mid, w1) x v h =
      let (e', w2, t, more) = stat_lem again mid (d.stat mid w1) x v h in
      (mid, w1, refl, e', w2, t, more)
  link_lem again (err e, w1) x v h = absurd (cc)

  -- What the loop returns, it got to by a chain that is short enough.
  abbrev pub Reached : ℕ → Text → DirEntry → W → Text × DirEntry → W → Type 0
  Reached left path e w x v =
      (n : ℕ) × (n ≤ left) × Chain n path e w x.0 x.1 v × (is_symlink x.1 ≡ false)

  target-Reached :
      (left : ℕ) (path : Text) (e : DirEntry) (w v : W) (x : Text × DirEntry)
      → is_symlink e ≡ false
      → ◌≡◌ {A = Result (Text × DirEntry) × W} (ok (path, e), w) (ok x, v)
      → Reached left path e w x v
  target-Reached left path e w v x s h =
      subst (Reached left path e w x) (ap (λ r. r.1) h)
        (subst (λ y. Reached left path e w y w) (cc) (0, omega arith, here, s))

  follow-Reached :
      (left : ℕ) (path : Text) (e : DirEntry) (w v : W) (x : Text × DirEntry)
      → follow u d left path e w ≡ (ok x, v)
      → Reached left path e w x v
  unfolding follow
  follow-Reached zero path e w v x r = elim (Bool-cases (is_symlink e)) [
    | inl s ↦ absurd (ground (arith, rw s at r))
    | inr s ↦ target-Reached 0 path e w v x s (rw s at r)
  ]
  follow-Reached (suc left) path e w v x r = elim (Bool-cases (is_symlink e)) [
    | inr s ↦ target-Reached (suc left) path e w v x s (rw s at r)
    | inl s ↦
        let (mid, w1, l, e', w2, t, more) =
          link_lem (follow u d left) (read_link u d path w) x v (rw s at r) in
        let (n, short, chain, ends) = follow-Reached left mid e' w2 v x more in
        (suc n, omega (arith, short), link s l t chain, ends)
  ]

  -- `readLinkRecursively` succeeds exactly with the end of a chain of at most 65 links that ends at an
  -- entry which is no link, one link more than `MaxLinkResolveDepth` says.
  pub read_link_recursively-Reached :
      (path : Text) (e : DirEntry) (w w1 v : W) (x : Text × DirEntry)
      → d.stat path w ≡ (ok e, w1)
      → (read_link_recursively u d path w ≡ (ok x, v))
        ↔ Reached (max_link_resolve_depth + 1) path e w1 x v
  unfolding read_link_recursively started
  read_link_recursively-Reached path e w w1 v x h = (
    λ r. follow-Reached (max_link_resolve_depth + 1) path e w1 v x (rw h at r),
    λ (n, short, chain, ends). rw h (
        follow-Chain (65 - n) 65 chain (omega (arith, short))
        ∙ follow-target (65 - n) x.0 x.1 v ends),
  )

  -- A chain of 65 links that leads to another link is given up with `ErrLinkTooDeep`, whose status is
  -- ELOOP, in the state that it has led to.
  read_link_recursively_too_deep :
      (path end : Text) (e last : DirEntry) (w w1 v : W)
      → d.stat path w ≡ (ok e, w1)
      → Chain (max_link_resolve_depth + 1) path e w1 end last v
      → is_symlink last ≡ true
      → (read_link_recursively u d path w ≡ (err link_too_deep, v))
        × (to_errno u (some link_too_deep) ≡ eloop)
  unfolding read_link_recursively started follow to_errno
  read_link_recursively_too_deep path end e last w w1 v h chain more =
      (rw h (follow-Chain 0 65 chain (omega arith) ∙ rw more refl), refl)

  -- An entry that is no link.
  pub read_link_recursively_plain :
      (path : Text) (e : DirEntry) (w w1 : W)
      → d.stat path w ≡ (ok e, w1)
      → is_symlink e ≡ false
      → read_link_recursively u d path w ≡ (ok (path, e), w1)
  unfolding read_link_recursively started follow
  read_link_recursively_plain path e w w1 stated plain = rw stated (rw plain refl)
