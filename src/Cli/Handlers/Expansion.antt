-- ===== src/Cli/Handlers/Expansion.antt =====
-- internal/cli/handlers.go: what the words of a handler become.
use adbfs.Base.{
  ℕ, ◌+◌, ◌≡◌, refl, sym, ap, ap₂, ◌∙◌, Bool, true, false, not, ◌&&◌, ◌==◌, List, [], ◌∷◌, ◌++◌,
  append_assoc, map, Text, length, length-append, Option, none, some, arith,
}
use mathlib.Core.List.{append-nil}
use adbfs.Strings.Parts.{split, join, split-join, Lacks, AllLack}
use adbfs.Cli.Handlers.{
  Values, value_of, is_special, is_alpha_num, front, to_brace, get_shell_name, expand_at,
  expand_from, expand, expand_handler_vars, append_to_env, fire_handlers, execute_handler, Running,
  Command, Executed,
}

-- A word of a handler as it is meant: text, and names of values, bare or in braces.
pub data Part : Type 0 where
  plain named in_braces : Text → Part

abbrev pub print : List Part → Text
print [] = []
print (plain s ∷ ps) = s ++ print ps
print (named n ∷ ps) = b'$' ∷ (n ++ print ps)
print (in_braces n ∷ ps) = b'$' ∷ b'{' ∷ (n ++ b'}' ∷ print ps)

abbrev pub substitute : (Text → Text) → List Part → Text
substitute mapping [] = []
substitute mapping (plain s ∷ ps) = s ++ substitute mapping ps
substitute mapping (named n ∷ ps) = mapping n ++ substitute mapping ps
substitute mapping (in_braces n ∷ ps) = mapping n ++ substitute mapping ps

-- A bare name is of letters, digits and underscores, and starts with no digit.
abbrev pub all_alpha_num : Text → Bool
all_alpha_num [] = true
all_alpha_num (c ∷ s) = is_alpha_num c && all_alpha_num s

abbrev pub is_name : Text → Bool
is_name [] = false
is_name (c ∷ s) = not (is_special c) && all_alpha_num (c ∷ s)

abbrev pub starts_alpha_num : Text → Bool
starts_alpha_num [] = false
starts_alpha_num (c ∷ s) = is_alpha_num c

-- Text has no dollar, a bare name ends where its letters do, and a name in braces has no brace that
-- closes.
abbrev pub IsPrintable : List Part → Type 0
IsPrintable [] = Unit
IsPrintable (plain s ∷ ps) = Lacks b'$' s × IsPrintable ps
IsPrintable (named n ∷ ps) =
    (is_name n ≡ true) × (starts_alpha_num (print ps) ≡ false) × IsPrintable ps
IsPrintable (in_braces n ∷ ps) = Lacks b'}' n × IsPrintable ps

to_brace-append : (n s : Text) → Lacks b'}' n → to_brace (n ++ b'}' ∷ s) ≡ some n
unfolding to_brace
to_brace-append [] s h = refl
to_brace-append (c ∷ n) s (h, hs) = rw (h, to_brace-append n s hs) refl

&&-eq_true : (a b : Bool) → a && b ≡ true → (a ≡ true) × (b ≡ true)
&&-eq_true a b h = (ground (arith, h), ground (arith, h))

not-eq_true : (a : Bool) → not a ≡ true → a ≡ false
not-eq_true a h = ground (arith, h)

front-append :
    (n s : Text)
    → all_alpha_num n ≡ true
    → starts_alpha_num s ≡ false
    → front is_alpha_num (n ++ s) ≡ n
unfolding front
front-append [] [] h e = refl
front-append [] (c ∷ s) h e = rw e refl
front-append (c ∷ n) s h e =
    let (own, others) = &&-eq_true (is_alpha_num c) (all_alpha_num n) h in
    rw (own, front-append n s others e) refl

alpha_num-ne_brace : (c : ℕ) → is_alpha_num c ≡ true → c == b'{' ≡ false
alpha_num-ne_brace c h = ground (arith, h)

get_shell_name-name :
    (c : ℕ) (n s : Text)
    → is_name (c ∷ n) ≡ true
    → starts_alpha_num s ≡ false
    → get_shell_name (c ∷ (n ++ s)) ≡ (c ∷ n, length (c ∷ n))
unfolding get_shell_name
get_shell_name-name c n s h e =
    let (special, alpha_nums) = &&-eq_true (not (is_special c)) (all_alpha_num (c ∷ n)) h in
    let (own, others) = &&-eq_true (is_alpha_num c) (all_alpha_num n) alpha_nums in
    rw
      (
        alpha_num-ne_brace c own,
        not-eq_true (is_special c) special,
        front-append (c ∷ n) s alpha_nums e,
      )
      refl

module _ (mapping : Text → Text) where
  expand_from_over : (n s : Text) → expand_from mapping (length n) (n ++ s) ≡ expand mapping s
  unfolding expand_from
  expand_from_over [] s = refl
  expand_from_over (c ∷ n) s = expand_from_over n s

  expand_at-plain : (c : ℕ) (s : Text) → c == b'$' ≡ false → expand_at mapping c s ≡ (c ∷ [], 0)
  expand_at-plain c [] h = refl
  expand_at-plain c (d ∷ s) h = rw h refl

  expand-plain : (t s : Text) → Lacks b'$' t → expand mapping (t ++ s) ≡ t ++ expand mapping s
  unfolding expand_from
  expand-plain [] s h = refl
  expand-plain (c ∷ t) s (h, hs) = rw (expand_at-plain c (t ++ s) h, expand-plain t s hs) refl

  expand-braced :
      (n s : Text)
      → Lacks b'}' n
      → expand mapping (b'$' ∷ b'{' ∷ (n ++ b'}' ∷ s)) ≡ mapping n ++ expand mapping s
  unfolding expand_from get_shell_name
  expand-braced n s h =
      let brace : Text = b'}' ∷ [] in
      let over : Text = b'{' ∷ (n ++ brace) in
      let closed : length n + 2 ≡ length over = omega (arith, length-append n brace) in
      let split_up : b'{' ∷ (n ++ b'}' ∷ s) ≡ over ++ s =
        ap (◌∷◌ b'{') (sym (append_assoc n brace s)) in
      rw (to_brace-append n s h) (
        ap (◌++◌ (mapping n)) (ap₂ (expand_from mapping) closed split_up ∙ expand_from_over over s))

  expand-named :
      (n s : Text)
      → is_name n ≡ true
      → starts_alpha_num s ≡ false
      → expand mapping (b'$' ∷ (n ++ s)) ≡ mapping n ++ expand mapping s
  unfolding expand_from
  expand-named [] s h e = absurd (cc)
  expand-named (c ∷ n) s h e =
      rw (get_shell_name-name c n s h e) (ap (◌++◌ (mapping (c ∷ n))) (expand_from_over (c ∷ n) s))

  expand-print :
      (ps : List Part) → IsPrintable ps → expand mapping (print ps) ≡ substitute mapping ps
  expand-print [] h = unfold expand_from in refl
  expand-print (plain t ∷ ps) (h, hs) = rw (expand-plain t (print ps) h, expand-print ps hs) refl
  expand-print (named n ∷ ps) (h, e, hs) =
      rw (expand-named n (print ps) h e, expand-print ps hs) refl
  expand-print (in_braces n ∷ ps) (h, hs) =
      rw (expand-braced n (print ps) h, expand-print ps hs) refl

-- The words, and what becomes of them.
abbrev pub print_words : List (List Part) → List Text
print_words ws = map print ws

abbrev pub AllPrintable : List (List Part) → Type 0
AllPrintable [] = Unit
AllPrintable (w ∷ ws) = IsPrintable w × AllPrintable ws

map-expand :
    (mapping : Text → Text) (ws : List (List Part))
    → AllPrintable ws
    → map (expand mapping) (print_words ws) ≡ map (substitute mapping) ws
map-expand mapping [] h = refl
map-expand mapping (w ∷ ws) (h, hs) = ap₂ ◌∷◌ (expand-print mapping w h) (map-expand mapping ws hs)

expand_handler_vars-split :
    (values : Values) (w : List Part) (ws : List (List Part))
    → AllPrintable (w ∷ ws)
    → AllLack 32 (print_words (w ∷ ws))
    → expand_handler_vars (split 32 (join 32 (print_words (w ∷ ws)))) values
      ≡ map (substitute (value_of values)) (w ∷ ws)
unfolding expand_handler_vars
expand_handler_vars-split values w ws h spaces =
    rw (split-join 32 (print w) (print_words ws) spaces) (map-expand (value_of values) (w ∷ ws) h)

abbrev pub assignments : Values → List Text
assignments [] = []
assignments ((k, v) ∷ vs) = (k ++ b'=' ∷ v) ∷ assignments vs

append_to_env-assignments :
    (environ : List Text) (values : Values)
    → append_to_env environ values ≡ environ ++ assignments values
unfolding append_to_env
append_to_env-assignments environ [] = sym (append-nil environ)
append_to_env-assignments environ ((k, v) ∷ vs) =
    append_to_env-assignments (environ ++ (k ++ b'=' ∷ v) ∷ []) vs
    ∙ append_assoc environ ((k ++ b'=' ∷ v) ∷ []) (assignments vs)

-- A handler as it is meant: its first word and the others.
abbrev pub Handler : Type 0
Handler = List Part × List (List Part)

abbrev pub written : Handler → Text
written (w, ws) = join 32 (print_words (w ∷ ws))

abbrev pub AreWritten : List Handler → Type 0
AreWritten [] = Unit
AreWritten ((w, ws) ∷ hs) =
    AllPrintable (w ∷ ws) × AllLack 32 (print_words (w ∷ ws)) × AreWritten hs

abbrev pub command_of : Option Executed → Option Command
command_of none = none
command_of (some e) = some e.command

abbrev pub meant : List Text → Values → Handler → Option Command
meant environ values (w, ws) = some (record {
  name = substitute (value_of values) w;
  arguments = map (substitute (value_of values)) ws;
  env = environ ++ assignments values;
})

-- For any values, whatever spaces, dollars and braces are in them, and any handlers that are written
-- as words without spaces, of text without dollars and of names with their marks: each handler runs
-- one command, that has the values put into each word, where the first word is the program and each
-- other one an argument, and the values are added to its environment.
pub fire_handlers-meant :
    (running : Running) (environ : List Text) (values : Values) (handlers : List Handler)
    → AreWritten handlers
    → map command_of (fire_handlers running environ (map written handlers) values)
      ≡ map (meant environ values) handlers
unfolding fire_handlers
fire_handlers-meant running environ values [] h = refl
fire_handlers-meant running environ values ((w, ws) ∷ hs) (h, spaces, rest) =
    ap₂ ◌∷◌
      (rw (expand_handler_vars-split values w ws h spaces, append_to_env-assignments environ values)
        (unfold execute_handler in refl))
      (fire_handlers-meant running environ values hs rest)
