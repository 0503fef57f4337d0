-- ===== src/Cli/MountRoot/Directories.antt =====
-- internal/cli/automount_config.go: what the automounter works with once its paths are initialized.
use adbfs.Base.{
  ◌≡◌, ◌⊎◌, inl, inr, refl, sym, ap, subst, ◌∙◌, Bool, true, false, List, [], ◌∷◌, Text, Option,
  none, some,
}
use adbfs.Cli.Version.{format_version, lines}
use adbfs.Cli.Version.Accepted.{OneOf, check_executable_version_matches_lem}
use adbfs.Cli.MountRoot.{
  Stat, directory, no_directory, unreadable, Fatal, value, fatal, first_existent_dir, root_given,
  checked_root, initialize_mount_root, Programs, adbfs_name, expected_version, verified, accepted,
  initialize_adbfs, both, initialize_paths,
}

abbrev value_or : {A : Type 0} → A → Fatal A → A
value_or a (value b) = b
value_or a fatal = a

value_inj : {A : Type 0} {a b : A} → value a ≡ value b → a ≡ b
value_inj {a = a} e = ap (λ x. value_or a x) e

both_value :
    (p q : Fatal Text) (a b : Text) → both p q ≡ value (a, b) → (p ≡ value a) × (q ≡ value b)
both_value fatal q a b e = absurd (cc)
both_value (value x) fatal a b e = absurd (cc)
both_value (value x) (value y) a b e =
    let same = value_inj e in (ap (λ z. value z.0) same, ap (λ z. value z.1) same)

module _ (stat : Text → Stat) where
  checked_root-directory :
      (root path : Text) (s : Stat)
      → checked_root stat root s ≡ value path
      → (s ≡ directory) × (root ≡ path)
  checked_root-directory root path directory e = (refl, value_inj e)
  checked_root-directory root path no_directory e = absurd (cc)
  checked_root-directory root path unreadable e = absurd (cc)

  root_given-directory :
      (given : Fatal Text) (path : Text)
      → root_given stat given ≡ value path
      → (stat path ≡ directory) × (given ≡ value path)
  root_given-directory fatal path e = absurd (cc)
  root_given-directory (value []) path e = absurd (cc)
  root_given-directory (value (c ∷ s)) path e =
      let (there, same) = checked_root-directory (c ∷ s) path (stat (c ∷ s)) e in
      (ap stat (sym same) ∙ there, ap value same)

  initialize_mount_root-directory :
      (defaults : List Text) (root path : Text)
      → initialize_mount_root stat defaults root ≡ value path
      → (stat path ≡ directory) × ((root ≡ []) ⊎ (root ≡ path))
  unfolding initialize_mount_root
  initialize_mount_root-directory defaults [] path e =
      let (there, same) = root_given-directory (first_existent_dir stat defaults) path e in
      (there, inl refl)
  initialize_mount_root-directory defaults (c ∷ s) path e =
      let (there, same) = root_given-directory (value (c ∷ s)) path e in
      (there, inr (value_inj same))

module _ (programs : Programs) (version : Text) where
  accepted_value :
      (given path : Text) (b : Bool)
      → accepted programs version given b ≡ value path
      → (b ≡ true) × (given ≡ path)
  accepted_value given path true e = (refl, value_inj e)
  accepted_value given path false e = absurd (cc)

  -- The output of the program has a line of its version.
  abbrev pub Versioned : Bool → Text → Type 0
  Versioned allow_any path =
      (found : Text) × OneOf (format_version adbfs_name found)
        (lines (programs.version_output path))
      × ((allow_any ≡ true) ⊎ ((version ≡ []) ⊎ (version ≡ found)))

  verified-Versioned :
      (allow_any : Bool) (given : Option Text) (path : Text)
      → verified programs version allow_any given ≡ value path
      → Versioned allow_any path
  verified-Versioned allow_any none path e = absurd (cc)
  verified-Versioned allow_any (some p) path e =
      let (checks, same) = accepted_value p path _ e in
      let (found, line, form, agrees, exit) =
        check_executable_version_matches_lem adbfs_name (expected_version allow_any version)
          (programs.version_output p) (programs.version_exit p) checks in
      subst (Versioned allow_any) same (found, line, expected allow_any found agrees)
    where
      expected :
          (allow : Bool) (found : Text)
          → ((expected_version allow version ≡ []) ⊎ (expected_version allow version ≡ found))
          → (allow ≡ true) ⊎ ((version ≡ []) ⊎ (version ≡ found))
      expected true found agrees = inl refl
      expected false found agrees = inr agrees

  initialize_adbfs-Versioned :
      (allow_any : Bool) (given path : Text)
      → initialize_adbfs programs version allow_any given ≡ value path
      → Versioned allow_any path
  unfolding initialize_adbfs
  initialize_adbfs-Versioned allow_any [] path e =
      verified-Versioned allow_any (programs.look_path adbfs_name) path e
  initialize_adbfs-Versioned allow_any (c ∷ s) path e =
      verified-Versioned allow_any (some (c ∷ s)) path e

-- If the automounter goes on after its paths are initialized, the mount root is a directory, the one
-- that was given if one was; and the program that will mount devices prints, asked for its version,
-- a line with the name adbfs and a version, which is the automounter's own unless that is empty or
-- any version is allowed.
pub initialize_paths-Versioned :
    (stat : Text → Stat) (programs : Programs) (version : Text) (defaults : List Text)
    (allow_any : Bool) (mount_root path_to_adbfs root path : Text)
    → initialize_paths stat programs version defaults allow_any mount_root path_to_adbfs
      ≡ value (root, path)
    → (stat root ≡ directory)
      × ((mount_root ≡ []) ⊎ (mount_root ≡ root))
      × Versioned programs version allow_any path
initialize_paths-Versioned stat programs version defaults allow_any mount_root path_to_adbfs root
      path e =
    let (one, two) = both_value _ _ root path e in
    let (there, given) = initialize_mount_root-directory stat defaults mount_root root one in
    (there, given, initialize_adbfs-Versioned programs version allow_any path_to_adbfs path two)
