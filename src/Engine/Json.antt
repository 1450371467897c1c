-- ===== src/Engine/Json.antt =====
-- engine/WsServer.hpp, `json_string` and `json_number`: the fields of a command, found without a parser.
use Prim.Native.Char.{code}
use Prim.Native.String.{String}
use mathlib.Core.List.{append_assoc}
use odds_engine.Base.{
  ℕ, ◌≡◌, ◌≢◌, refl, sym, ap, ◌∙◌, Bool, ◌&&◌, ◌||◌, Option, none, some, [], ◌∷◌, ◌++◌, arith, leb,
  ◌==◌, if◌then◌else◌, ==_iff, All, Bool-cases, inl, inr,
}
use odds_engine.Base.Bytes.{Bytes}

-- The bytes of a literal, all ASCII here.
abbrev pub codes : String → Bytes
codes String.[] = []
codes (String.◌∷◌ c s) = code c ∷ codes s

abbrev pub quote : ℕ
quote = 34

abbrev pub colon : ℕ
colon = 58

abbrev pub is_space : ℕ → Bool
is_space c = c == 32 || (leb 9 c && leb c 13)

-- What follows a prefix, if the text has it.
unfoldable pub strip : Bytes → Bytes → Option Bytes
strip [] s = some s
strip (p ∷ ps) [] = none
strip (p ∷ ps) (c ∷ s) = let rest = strip ps s in if p == c then rest else none

-- What follows the first occurrence of a pattern, `s.find(pattern) + pattern.size()`.
unfoldable pub after : Bytes → Bytes → Option Bytes
after pattern [] = strip pattern []
after pattern (c ∷ s) =
    let later = after pattern s in
    elim (strip pattern (c ∷ s)) [ none ↦ later | some rest ↦ some rest ]

abbrev pub skip_space : Bytes → Bytes
skip_space [] = []
skip_space (c ∷ s) = let rest = skip_space s in if is_space c then rest else c ∷ s

-- The text up to the first quote; none where there is no quote.
unfoldable pub up_to_quote : Bytes → Option Bytes
up_to_quote [] = none
up_to_quote (c ∷ s) =
    let rest = up_to_quote s in
    if c == quote then some [] else elim rest [ none ↦ none | some t ↦ some (c ∷ t) ]

abbrev pub quoted : Bytes → Bytes
quoted name = quote ∷ (name ++ quote ∷ [])

abbrev pub then_after : Bytes → Option Bytes → Option Bytes
then_after pattern none = none
then_after pattern (some s) = after pattern s

abbrev spaced : Option Bytes → Option Bytes
spaced none = none
spaced (some rest) = some (skip_space rest)

-- The text behind `"name"`, the colon and white space.
unfoldable pub field_text : Bytes → Bytes → Option Bytes
field_text s name = spaced (then_after (colon ∷ []) (after (quoted name) s))

abbrev pub string_at : Option Bytes → Option Bytes
string_at none = none
string_at (some []) = none
string_at (some (c ∷ s)) = if c == quote then up_to_quote s else none

abbrev pub number_at : {D : Type 0} → (Bytes → Option D) → Option Bytes → Option D
number_at strtod none = none
number_at strtod (some s) = strtod s

unfoldable pub json_string : Bytes → Bytes → Option Bytes
json_string s name = string_at (field_text s name)

-- `strtod` is the C library's: none where it consumes nothing.
unfoldable pub json_number : {D : Type 0} → (Bytes → Option D) → Bytes → Bytes → Option D
json_number strtod s name = number_at strtod (field_text s name)

-- The command that the dashboard's `send(key, value)` writes, with the value's own text.
abbrev pub command : Bytes → Bytes → Bytes
command key value =
    codes "{\"cmd\":\"set\",\"key\":\"" ++ (key ++ (codes "\",\"value\":" ++ (value ++ codes "}")))

abbrev pub IsPlain : Bytes → Type 0
IsPlain = All (λ c. c ≢ quote)

up_to_quote-append : (t rest : Bytes) → IsPlain t → up_to_quote (t ++ quote ∷ rest) ≡ some t
unfolding up_to_quote
up_to_quote-append [] rest h = refl
up_to_quote-append (c ∷ t) rest (h, hs) = rw (up_to_quote-append t rest hs) (ground arith)

-- A quoted pattern is not found to begin within text that has no quotes.
after-append :
    (p t rest : Bytes) → IsPlain t → after (quote ∷ p) (t ++ rest) ≡ after (quote ∷ p) rest
unfolding after strip
after-append p [] rest h = refl
after-append p (c ∷ t) rest (h, hs) = elim (Bool-cases (quote == c)) [
  | inl e ↦ absurd (h (sym ((==_iff quote c).0 e)))
  | inr e ↦ rw (after, strip, e) (after-append p t rest hs)
]

-- A quoted name does not match another.
strip_other :
    (w t rest : Bytes)
    → IsPlain w
    → IsPlain t
    → t ≢ w
    → strip (w ++ quote ∷ []) (t ++ quote ∷ rest) ≡ none
unfolding strip
strip_other [] [] rest h k n = absurd (n refl)
strip_other [] (c ∷ t) rest h (k, ks) n = ground arith
strip_other (x ∷ w) [] rest (h, hs) k n = ground arith
strip_other (x ∷ w) (c ∷ t) rest (h, hs) (k, ks) n = elim (Bool-cases (x == c)) [
  | inl e ↦ rw e (strip_other w t rest hs ks (λ same. n (cc (same, (==_iff x c).0 e))))
  | inr e ↦ rw e refl
]

module _ (key value : Bytes) (plain : IsPlain key) where
  json_string_cmd : json_string (command key value) (codes "cmd") ≡ some (codes "set")
  unfolding json_string field_text after strip up_to_quote
  json_string_cmd = refl

  json_string_key : json_string (command key value) (codes "key") ≡ some key
  unfolding json_string field_text after strip
  json_string_key = up_to_quote-append key _ plain

  value_text :
      key ≢ codes "value"
      → field_text (command key value) (codes "value") ≡ some (skip_space (value ++ codes "}"))
  unfolding field_text after strip
  value_text other =
      ap
        (λ o. spaced (
          then_after (colon ∷ []) (elim o [
            | none ↦
                after (quoted (codes "value"))
                  (key ++ (codes "\",\"value\":" ++ (value ++ codes "}")))
            | some rest ↦ some rest
          ])))
        (strip_other (codes "value") key _ value_plain plain other)
      ∙ ap (λ o. spaced (then_after (colon ∷ []) o))
          (after-append (codes "value\"") key (codes "\",\"value\":" ++ (value ++ codes "}")) plain)
    where
      value_plain : IsPlain (codes "value")
      value_plain =
          (ground arith, (ground arith, (ground arith, (ground arith, (ground arith, tt)))))

-- Of a command whose key has no quotes and is not `value`, the readers find what the dashboard put
-- there: the command's word, the key, and the text of the value for `strtod` or up to the quote.
pub json-command :
    {D : Type 0}
    → (strtod : Bytes → Option D) (key value text : Bytes) → IsPlain key
    → IsPlain text
    → key ≢ codes "value"
    → (json_string (command key value) (codes "cmd") ≡ some (codes "set"))
      × (json_string (command key value) (codes "key") ≡ some key)
      × (json_string (command key (quoted text)) (codes "value") ≡ some text)
      × (json_number strtod (command key value) (codes "value")
          ≡ strtod (skip_space (value ++ codes "}")))
unfolding json_string json_number
json-command strtod key value text plain clean other = (
  json_string_cmd key value plain,
  json_string_key key value plain,
  ap string_at (value_text key (quoted text) plain other)
      ∙ ap up_to_quote (append_assoc text (quote ∷ []) (codes "}"))
      ∙ up_to_quote-append text (codes "}") clean,
  ap (number_at strtod) (value_text key value plain other),
)
