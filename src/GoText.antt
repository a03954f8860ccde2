-- ===== src/GoText.antt =====
-- Go's text as the program uses it: a string is the sequence of its runes (valid UTF-8, so an
-- invalid byte does not occur), and the tables of package unicode are an interface.
-- Equal, Split, TrimSpace, ToLower, FieldsFunc and EqualFold of package strings follow their
-- documentation; `len` counts the bytes of the UTF-8 encoding.
pub mod Equality
pub mod Trimming
pub mod Splitting
pub mod Words
pub mod Ascii
pub mod Maps
use Prim.Native.Char.{code}
use Prim.Native.String.{String}
use role_model.Prelude.{
  ℕ, zero, suc, ◌+◌, ◌-◌, Bool, true, false, not, ◌&&◌, ◌||◌, List, [], ◌∷◌, ◌++◌, map, ltb, ◌==◌,
  if◌then◌else◌, length,
}

abbrev pub Str : Type 0
Str = List ℕ

-- The runes of a literal.
abbrev pub codes : String → Str
codes String.[] = []
codes (String.◌∷◌ c s) = code c ∷ codes s

-- `==` on strings.
unfoldable pub str_eq : Str → Str → Bool
str_eq [] [] = true
str_eq [] (b ∷ t) = false
str_eq (a ∷ s) [] = false
str_eq (a ∷ s) (b ∷ t) = a == b && str_eq s t

abbrev pub is_empty : Str → Bool
is_empty [] = true
is_empty (c ∷ s) = false

-- The tables of package unicode. `fold` names one rune of each orbit of SimpleFold.
pub record Unicode : Type 0 where
  pub is_letter : ℕ → Bool
  pub is_digit : ℕ → Bool
  pub is_space : ℕ → Bool
  pub rune_lower : ℕ → ℕ
  pub fold : ℕ → ℕ

-- The bytes of a rune in UTF-8.
unfoldable pub rune_len : ℕ → ℕ
rune_len c = if ltb c 0x80 then 1 else if ltb c 0x800 then 2 else if ltb c 0x10000 then 3 else 4

unfoldable pub byte_len : Str → ℕ
byte_len [] = 0
byte_len (c ∷ s) = rune_len c + byte_len s

unfoldable pub starts_with : Str → Str → Bool
starts_with [] s = true
starts_with (p ∷ ps) [] = false
starts_with (p ∷ ps) (c ∷ s) = p == c && starts_with ps s

unfoldable pub ends_with : Str → Str → Bool
unfolding str_eq
ends_with p [] = is_empty p
ends_with p (c ∷ s) = str_eq p (c ∷ s) || ends_with p s

-- Puts a rune before the first part.
abbrev pub cons_head : ℕ → List Str → List Str
cons_head c [] = (c ∷ []) ∷ []
cons_head c (w ∷ ws) = (c ∷ w) ∷ ws

-- strings.Split(s, sep) for a separator that is not empty; `skip` runes of a separator that has
-- been found are still to be passed over.
unfoldable pub split_skip : Str → ℕ → Str → List Str
split_skip sep skip [] = [] ∷ []
split_skip sep (suc skip) (c ∷ s) = split_skip sep skip s
split_skip sep zero (c ∷ s) =
    let found = [] ∷ split_skip sep (length sep - 1) s in
    let passed = cons_head c (split_skip sep zero s) in
    if starts_with sep (c ∷ s) then found else passed

unfoldable pub split : Str → Str → List Str
unfolding split_skip
split s sep = split_skip sep 0 s

abbrev pub flush : Str → List Str → List Str
flush [] ws = ws
flush (c ∷ w) ws = (c ∷ w) ∷ ws

-- strings.FieldsFunc: `word` is the field that is being read.
unfoldable pub fields_from : (ℕ → Bool) → Str → Str → List Str
fields_from sep word [] = flush word []
fields_from sep word (c ∷ s) =
    let ended = flush word (fields_from sep [] s) in
    let longer = fields_from sep (word ++ c ∷ []) s in if sep c then ended else longer

unfoldable pub fields_func : (ℕ → Bool) → Str → List Str
unfolding fields_from
fields_func sep s = fields_from sep [] s

module _ ⦃u : Unicode⦄ where
  unfoldable pub to_lower : Str → Str
  to_lower s = map u.rune_lower s

  unfoldable pub equal_fold : Str → Str → Bool
  unfolding str_eq
  equal_fold s t = str_eq (map u.fold s) (map u.fold t)

  unfoldable pub trim_left : Str → Str
  trim_left [] = []
  trim_left (c ∷ s) = if u.is_space c then trim_left s else c ∷ s

  unfoldable pub trim_right : Str → Str
  trim_right [] = []
  trim_right (c ∷ s) =
      let rest = trim_right s in if u.is_space c && is_empty rest then [] else c ∷ rest

  unfoldable pub trim_space : Str → Str
  unfolding trim_left trim_right
  trim_space s = trim_right (trim_left s)
