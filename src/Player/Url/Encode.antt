-- ===== src/Player/Url/Encode.antt =====
-- Percent encoding, as `encodeURIComponent` and `URLSearchParams.toString` of the language do it.
use Prim.Native.Char.{code}
use Prim.Native.String.{◌∷◌, []}
use strata_pvr.Base.{
  ⧺-ne-empty, if-ne-empty, All, Bool-cases, inl, inr, ℕ, zero, suc, ◌+◌, ◌/◌, ◌%◌, String, Bool,
  true, false, ◌&&◌, ◌||◌, List, map, leb, ltb, eqb, join, ◌⧺◌, all_chars, all_chars-⧺, ◌≡◌, ◌≢◌,
  refl, if◌then◌else◌, arith,
}

abbrev hex_digits : List String
hex_digits = List.◌∷◌ "0" (
    List.◌∷◌ "1" (
      List.◌∷◌ "2" (
        List.◌∷◌ "3" (
          List.◌∷◌ "4" (
            List.◌∷◌ "5" (
              List.◌∷◌ "6" (
                List.◌∷◌ "7" (
                  List.◌∷◌ "8" (
                    List.◌∷◌ "9" (
                      List.◌∷◌ "A" (
                        List.◌∷◌ "B" (
                          List.◌∷◌ "C"
                            (List.◌∷◌ "D" (List.◌∷◌ "E" (List.◌∷◌ "F" List.[])))))))))))))))

abbrev digit_at : List String → ℕ → String
digit_at List.[] n = "0"
digit_at (List.◌∷◌ d ds) zero = d
digit_at (List.◌∷◌ d ds) (suc n) = digit_at ds n

-- One byte as `%XX`.
percent : ℕ → String
percent b = "%" ⧺ digit_at hex_digits (b / 16) ⧺ digit_at hex_digits (b % 16)

-- The UTF-8 bytes of a code point, each as `%XX`.
percent_utf8 : ℕ → String
unfolding percent
percent_utf8 c =
    if ltb c 0x80
    then percent c
    else (if ltb c 0x800
        then percent (0xc0 + c / 64) ⧺ percent (0x80 + c % 64)
        else (if ltb c 0x10000
            then percent (0xe0 + c / 4096) ⧺ percent (0x80 + c / 64 % 64) ⧺ percent (0x80 + c % 64)
            else percent (0xf0 + c / 262144)
              ⧺ percent (0x80 + c / 4096 % 64)
              ⧺ percent (0x80 + c / 64 % 64)
              ⧺ percent (0x80 + c % 64)))

abbrev is_alnum : ℕ → Bool
is_alnum c = (leb b'0' c && leb c b'9') || (leb b'A' c && leb c b'Z') || (leb b'a' c && leb c b'z')

-- The characters that `encodeURIComponent` keeps: letters, digits and - _ . ! ~ * ' ( ).
unfoldable pub is_kept : ℕ → Bool
is_kept c =
    is_alnum c
    || eqb c b'-'
    || eqb c b'_'
    || eqb c b'.'
    || eqb c b'!'
    || eqb c b'~'
    || eqb c b'*'
    || eqb c 39
    || eqb c b'('
    || eqb c b')'

unfoldable pub encode_uri_component : String → String
unfolding percent_utf8 is_kept
encode_uri_component [] = ""
encode_uri_component (c ∷ s) =
    (if is_kept (code c) then c ∷ "" else percent_utf8 (code c)) ⧺ encode_uri_component s

-- A form keeps letters, digits and * - . _ and writes a space as `+`.
encode_form : String → String
unfolding percent_utf8
encode_form [] = ""
encode_form (c ∷ s) =
    (if is_alnum (code c)
        || eqb (code c) b'*'
        || eqb (code c) b'-'
        || eqb (code c) b'.'
        || eqb (code c) b'_'
      then c ∷ ""
      else (if eqb (code c) 32 then "+" else percent_utf8 (code c)))
    ⧺ encode_form s

abbrev pair_text : String × String → String
pair_text (k, v) = encode_form k ⧺ "=" ⧺ encode_form v

unfoldable pub serialize : List (String × String) → String
unfolding encode_form
serialize params = join "&" (map pair_text params)

-- The characters of an encoded component: none of them divides an address.
abbrev pub is_component : ℕ → Bool
is_component c = is_kept c || eqb c b'%'

pub slash-not-component : is_component b'/' ≡ false
unfolding is_kept
slash-not-component = refl

digit_at-component :
    (ds : List String) (n : ℕ)
    → All (λ d. all_chars is_component d ≡ true) ds
    → all_chars is_component (digit_at ds n) ≡ true
unfolding is_kept
digit_at-component List.[] n h = refl
digit_at-component (List.◌∷◌ d ds) zero h = h.0
digit_at-component (List.◌∷◌ d ds) (suc n) h = digit_at-component ds n h.1

hex_digits-component : All (λ d. all_chars is_component d ≡ true) hex_digits
unfolding is_kept
hex_digits-component = (
  refl,
  (
    refl,
    (
      refl,
      (
        refl,
        (
          refl,
          (
            refl,
            (refl, (refl, (refl, (refl, (refl, (refl, (refl, (refl, (refl, (refl, tt)))))))))),
          ),
        ),
      ),
    ),
  ),
)

all_chars-append :
    (s t : String)
    → all_chars is_component s ≡ true
    → all_chars is_component t ≡ true
    → all_chars is_component (s ⧺ t) ≡ true
all_chars-append s t p q = rw (all_chars-⧺, p, q)

percent-component : (b : ℕ) → all_chars is_component (percent b) ≡ true
unfolding percent is_kept
percent-component b =
    all_chars-append (digit_at hex_digits (b / 16)) (digit_at hex_digits (b % 16))
      (digit_at-component hex_digits (b / 16) hex_digits-component)
      (digit_at-component hex_digits (b % 16) hex_digits-component)

percent_utf8-component : (c : ℕ) → all_chars is_component (percent_utf8 c) ≡ true
unfolding percent_utf8
percent_utf8-component c = ground (
  arith,
  percent-component c,
  percent-component (0xc0 + c / 64),
  percent-component (0x80 + c % 64),
  percent-component (0xe0 + c / 4096),
  percent-component (0x80 + c / 64 % 64),
  percent-component (0xf0 + c / 262144),
  percent-component (0x80 + c / 4096 % 64),
  all_chars-⧺ is_component (percent (0xc0 + c / 64)) (percent (0x80 + c % 64)),
  all_chars-⧺ is_component (percent (0xe0 + c / 4096))
      (percent (0x80 + c / 64 % 64) ⧺ percent (0x80 + c % 64)),
  all_chars-⧺ is_component (percent (0x80 + c / 64 % 64)) (percent (0x80 + c % 64)),
  all_chars-⧺ is_component (percent (0xf0 + c / 262144))
      (percent (0x80 + c / 4096 % 64) ⧺ percent (0x80 + c / 64 % 64) ⧺ percent (0x80 + c % 64)),
  all_chars-⧺ is_component (percent (0x80 + c / 4096 % 64))
      (percent (0x80 + c / 64 % 64) ⧺ percent (0x80 + c % 64)),
)

-- An encoded component holds nothing that divides an address.
pub encode_uri_component-component :
    (s : String) → all_chars is_component (encode_uri_component s) ≡ true
unfolding encode_uri_component
encode_uri_component-component [] = refl
encode_uri_component-component (c ∷ s) = elim (Bool-cases (is_kept (code c))) [
  | inl k ↦ rw k (ground (arith, encode_uri_component-component s))
  | inr n ↦ rw n (
      all_chars-append (percent_utf8 (code c)) (encode_uri_component s)
        (percent_utf8-component (code c)) (encode_uri_component-component s))
]

percent_utf8-ne-empty : (c : ℕ) → percent_utf8 c ≢ ""
unfolding percent_utf8 percent
percent_utf8-ne-empty c =
    if-ne-empty (ltb c 0x80) _ _ (λ e. cc)
      (if-ne-empty (ltb c 0x800) _ _ (λ e. cc)
        (if-ne-empty (ltb c 0x10000) _ _ (λ e. cc) (λ e. cc)))

-- A text that is not empty is not encoded as the empty one.
pub encode_uri_component-ne-empty : (s : String) → s ≢ "" → encode_uri_component s ≢ ""
unfolding encode_uri_component
encode_uri_component-ne-empty [] h = absurd (h refl)
encode_uri_component-ne-empty (c ∷ s) h = elim (Bool-cases (is_kept (code c))) [
  | inl k ↦ rw k (λ e. cc)
  | inr n ↦
      rw n (
        ⧺-ne-empty (percent_utf8 (code c)) (encode_uri_component s)
          (percent_utf8-ne-empty (code c)))
]

encode_japanese : encode_uri_component "a b/あ𠮷" ≡ "a%20b%2F%E3%81%82%F0%A0%AE%B7"
unfolding encode_uri_component
encode_japanese = refl
