-- ===== src/Adbfs/Advances.antt =====
-- cmd/adbfs/main.go: what stays of the phases of all goroutines where one of them makes a step.
use adbfs.Base.{
  ℕ, ◌+◌, ◌≡◌, refl, sym, ◌∙◌, subst, true, not, ◌&&◌, ◌||◌, if◌then◌else◌, List, [], ◌∷◌, ◌++◌,
  Option, none, some, done, arith,
}
use adbfs.Adbfs.{
  Shared, Phase, at_mounted, at_unmounted, at_server, at_mounted_check, at_swap, at_unmount,
  advance, Main, mounting, starting, serving, leaving, gone, died, main_after, rest,
}
use adbfs.Adbfs.Phases.{
  may_be, all_may_be, main_may_be, about, all_about, main_about, Advanced, advance-Advanced,
}

pub advance-Advanced_at :
    (h h' : Shared) (p : Phase) (o : Option Phase)
    → not h.mounted || h.server ≡ true
    → may_be h p ≡ true
    → advance h p ≡ done (h', o)
    → Advanced h p h' o
advance-Advanced_at h h' p o e m step =
    let (h1, o1, made, r) = advance-Advanced h p e m in
    let done_same = sym made ∙ step in
    let same : (h1, o1) ≡ (h', o) = cc in
    subst (λ (x : Shared × Option Phase). Advanced h p x.0 x.1) same r

may_be-grows :
    (h h' : Shared) (p : Phase)
    → not h.mounted || h'.mounted ≡ true
    → not h.unmounted || h'.unmounted ≡ true
    → may_be h p ≡ true
    → may_be h' p ≡ true
may_be-grows h h' at_mounted m u k = refl
may_be-grows h h' at_unmounted m u k = ground (arith, m, k)
may_be-grows h h' at_server m u k = ground (arith, m, k)
may_be-grows h h' at_mounted_check m u k = ground (arith, m, k)
may_be-grows h h' at_swap m u k = ground (arith, m, k)
may_be-grows h h' at_unmount m u k = ground (arith, m, u, k)

pub all_may_be-grows :
    (h h' : Shared) (ps : List Phase)
    → not h.mounted || h'.mounted ≡ true
    → not h.unmounted || h'.unmounted ≡ true
    → all_may_be h ps ≡ true
    → all_may_be h' ps ≡ true
all_may_be-grows h h' [] m u k = refl
all_may_be-grows h h' (p ∷ ps) m u k =
    let one = may_be-grows h h' p m u (ground (arith, k)) in
    let rest = all_may_be-grows h h' ps m u (ground (arith, k)) in ground (arith, one, rest)

pub all_may_be-append :
    (h : Shared) (ps qs : List Phase)
    → all_may_be h (ps ++ qs) ≡ (all_may_be h ps && all_may_be h qs)
all_may_be-append h [] qs = refl
all_may_be-append h (p ∷ ps) qs = ground (arith, all_may_be-append h ps qs)

all_about-append : (ps qs : List Phase) → all_about (ps ++ qs) ≡ all_about ps + all_about qs
all_about-append [] qs = omega arith
all_about-append (p ∷ ps) qs = omega (arith, all_about-append ps qs)

pub kept_mounted : (h h' : Shared) → h'.mounted ≡ h.mounted → not h.mounted || h'.mounted ≡ true
kept_mounted h h' e = ground (arith, e)

-- What stays of the goroutines' phases and their count where one of them makes a step.
pub replaced-all_may_be :
    (h h' : Shared) (before after : List Phase) (p : Phase) (o : Option Phase)
    → Advanced h p h' o
    → all_may_be h (before ++ p ∷ after) ≡ true
    → all_may_be h' (before ++ rest o ++ after) ≡ true
replaced-all_may_be h h' before after p o a k =
    let split = all_may_be-append h before (p ∷ after) in
    let one =
      all_may_be-grows h h' before (kept_mounted h h' a.mounted) a.unmounted
        (ground (arith, split, k)) in
    let two =
      all_may_be-grows h h' after (kept_mounted h h' a.mounted) a.unmounted
        (ground (arith, split, k)) in
    ground (
      arith,
      all_may_be-append h' (before ++ rest o) after,
      all_may_be-append h' before (rest o),
      one,
      two,
      a.phase,
    )

pub replaced-all_about :
    (before after : List Phase) (p : Phase) (o : Option Phase)
    → all_about (before ++ rest o ++ after) + about p
      ≡ all_about (before ++ p ∷ after) + all_about (rest o)
replaced-all_about before after p o = omega (
  arith,
  all_about-append before (p ∷ after),
  all_about-append (before ++ rest o) after,
  all_about-append before (rest o),
)

pub has_server-kept :
    (h h' : Shared)
    → h'.server ≡ h.server
    → h'.mounted ≡ h.mounted
    → not h.mounted || h.server ≡ true
    → not h'.mounted || h'.server ≡ true
has_server-kept h h' e m k = ground (arith, e, m, k)

pub set_server-may_be :
    (h : Shared) (ps : List Phase)
    → all_may_be h ps ≡ true
    → all_may_be (record h { server = true }) ps ≡ true
set_server-may_be h ps k =
    all_may_be-grows h (record h { server = true }) ps (ground arith) (ground arith) k

pub once_after :
    (h h' : Shared) (p : Phase) (o : Option Phase) (n m : ℕ)
    → Advanced h p h' o
    → h.unmounts + n ≡ (if h.unmounted then 1 else 0)
    → m + about p ≡ n + all_about (rest o)
    → h'.unmounts + m ≡ (if h'.unmounted then 1 else 0)
once_after h h' p o n m a e f = omega (arith, a.once, e, f)

pub main_about_after : (o : Option Phase) → main_about (main_after o) ≡ all_about (rest o)
main_about_after none = refl
main_about_after (some p) = omega arith

pub main_may_be-grows :
    (h h' : Shared) (m : Main)
    → h'.server ≡ h.server
    → h'.mounted ≡ h.mounted
    → not h.unmounted || h'.unmounted ≡ true
    → main_may_be h m ≡ true
    → main_may_be h' m ≡ true
main_may_be-grows h h' mounting e m u k = ground (arith, m, k)
main_may_be-grows h h' starting e m u k = ground (arith, e, m, k)
main_may_be-grows h h' serving e m u k = ground (arith, m, k)
main_may_be-grows h h' gone e m u k = ground (arith, m, u, k)
main_may_be-grows h h' died e m u k = ground (arith, e, m, k)
main_may_be-grows h h' (leaving p) e m u k =
    let own = may_be-grows h h' p (kept_mounted h h' m) u (ground (arith, k)) in
    ground (arith, m, k, own)
