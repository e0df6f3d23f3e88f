-- ===== src/Prelude/Text.antt =====
-- Python's `str`: equality, the case mappings on ASCII letters, and dictionaries keyed by text.
-- Characters outside ASCII are left alone by `upper` and `lower`: every key that the program
-- compares (leagues, markets, sides) is ASCII.
use Prim.Native.Char.{Char, code}
use mathlib.Core.Option.{Option, none, some}
use text.Mathlib.TextEquality.{eq_iff}
use native.Mathlib.Omega.{arith}
use mathlib.Core.Path.{◌≡◌, refl, sym, subst}
use Prim.Native.String.{String, char_at}
use mathlib.Core.Bool.{Bool, true, false, not, ◌&&◌, ◌||◌}
use Prim.Native.Nat.{◌-◌}
use text.Mathlib.Text.{◌==◌ as text_eq}
use mathlib.Core.Logic.{inl, inr}
use bookie_breaker_agent.Prelude.Tests.{leb, ◌==◌, if◌then◌else◌, Bool-cases}
use bookie_breaker_agent.Prelude.Lists.{All}
use mathlib.Core.List.{List, [], ◌∷◌}

abbrev pub str_eq : String → String → Bool
str_eq = text_eq

abbrev upper_char : Char → Char
upper_char c =
    if leb b'a' (code c) && leb (code c) b'z'
    then char_at "ABCDEFGHIJKLMNOPQRSTUVWXYZ" (code c - b'a')
    else c

abbrev lower_char : Char → Char
lower_char c =
    if leb b'A' (code c) && leb (code c) b'Z'
    then char_at "abcdefghijklmnopqrstuvwxyz" (code c - b'A')
    else c

unfoldable pub upper : String → String
upper String.[] = String.[]
upper (String.◌∷◌ c s) = String.◌∷◌ (upper_char c) (upper s)

unfoldable pub lower : String → String
lower String.[] = String.[]
lower (String.◌∷◌ c s) = String.◌∷◌ (lower_char c) (lower s)

shout : upper "nfl_Fb" ≡ "NFL_FB"
unfolding upper
shout = refl

-- `s.endswith(suffix)`
unfoldable pub ends_with : String → String → Bool
ends_with String.[] suffix = str_eq String.[] suffix
ends_with (String.◌∷◌ c s) suffix = str_eq (String.◌∷◌ c s) suffix || ends_with s suffix

-- `s.startswith(prefix)`
unfoldable pub starts_with : String → String → Bool
starts_with s String.[] = true
starts_with String.[] (String.◌∷◌ c prefix) = false
starts_with (String.◌∷◌ d s) (String.◌∷◌ c prefix) = (code d == code c) && starts_with s prefix

-- `s[: -len(suffix)] if s.endswith(suffix) else s`, for a suffix that is not empty
unfoldable pub drop_suffix : String → String → String
drop_suffix String.[] suffix = String.[]
drop_suffix (String.◌∷◌ c s) suffix =
    if str_eq (String.◌∷◌ c s) suffix then String.[] else String.◌∷◌ c (drop_suffix s suffix)

-- `text or ""`, and `bool(text)` of an optional text
abbrev pub text_of : Option String → String
text_of none = ""
text_of (some s) = s

abbrev pub is_set : Option String → Bool
is_set s = not (str_eq (text_of s) "")

moneyline_suffix : drop_suffix "boston celtics ml" " ml" ≡ "boston celtics"
unfolding drop_suffix
moneyline_suffix = refl

prop_market : ends_with "PLAYER_PROP" "_PROP" ≡ true
unfolding ends_with
prop_market = refl

home_selection : starts_with "boston celtics ml" "boston" ≡ true
unfolding starts_with
home_selection = refl

module _ {ℓ} {V : Type ℓ} where
  -- `d.get(key)`
  unfoldable pub lookup : String → List (String × V) → Option V
  lookup key [] = none
  lookup key ((name, value) ∷ others) = if str_eq name key then some value else lookup key others

  -- `d[key] = value`: an old key keeps its place, as in a Python dict.
  unfoldable pub insert : String → V → List (String × V) → List (String × V)
  insert key value [] = (key, value) ∷ []
  insert key value ((name, old) ∷ others) =
      let rest = insert key value others in
      if str_eq name key then (name, value) ∷ others else (name, old) ∷ rest

  -- A dict gives back what was last assigned, and keeps the other keys.
  pub lookup-insert :
      (key name : String) (value : V) (d : List (String × V))
      → lookup name (insert key value d) ≡ (if str_eq key name then some value else lookup name d)
  unfolding lookup insert
  lookup-insert key name value [] = refl
  lookup-insert key name value ((other, w) ∷ d) =
      ground (
        arith,
        lookup-insert key name value d,
        eq_iff other name,
        eq_iff other key,
        eq_iff key name,
      )

  -- What holds of the entries and of the new one holds after the assignment.
  pub insert-entries {κ} :
      (P : String → V → Type κ) (key : String) (value : V) (d : List (String × V))
      → P key value
      → All (λ e. P (e.0) (e.1)) d
      → All (λ e. P (e.0) (e.1)) (insert key value d)
  unfolding insert
  insert-entries P key value [] h hs = (h, tt)
  insert-entries P key value ((name, w) ∷ d) h (p, hs) = elim (Bool-cases (str_eq name key)) [
    | inl e ↦ rw e (subst (λ z. P z value) (sym ((eq_iff name key).0 e)) h, hs)
    | inr e ↦ rw e (p, insert-entries P key value d h hs)
  ]

abbrev pub append : String → String → String
append String.[] t = t
append (String.◌∷◌ c s) t = String.◌∷◌ c (append s t)

-- `separator.join(parts)`
unfoldable pub join : String → List String → String
join separator [] = String.[]
join separator (part ∷ []) = part
join separator (part ∷ next ∷ parts) =
    append part (append separator (join separator (next ∷ parts)))

joined : join ":" ("game" ∷ "TOTAL" ∷ "" ∷ []) ≡ "game:TOTAL:"
unfolding join
joined = refl
