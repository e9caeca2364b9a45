-- ===== src/Manager/Hash.antt =====
-- The key of a search: genHashFromSearchParam of parser/internal/parsers_manager/internal_func.go.
-- encoding/json, crypto/sha256 and encoding/hex are parameters; so is the type of bytes.
use job_parser.Base.{
  String, ◌≡◌, Option, none, some, List, take, ◌⊎◌, inl, inr, ap, refl, arith, ℕ_discrete, eq_iff,
  Bool-cases, ◌≢◌,
}
use job_parser.Base.Int.{ℤ, pos, negsuc}
use text.Mathlib.Text.{◌==◌ as str_eq}
use job_parser.Base.Error.{Error, wrap}
use job_parser.Models.{SearchParams}
use job_parser.Manager.Caching.{GenHash}

-- The anonymous struct that is encoded.
pub record KeyData : Type 0 where
  pub text : String
  pub area : String
  pub per_page : ℤ
  pub page : ℤ

pub record Digests (Byte : Type 0) : Type 0 where
  pub marshal : KeyData → Error ⊎ List Byte
  pub sum256 : List Byte → List Byte
  pub encode_to_string : List Byte → String

unfoldable pub key_data : SearchParams → KeyData
key_data params = record {
  text = params.text;
  area = params.area;
  per_page = params.per_page;
  page = params.page;
}

same_text : (s t : String) → Dec (s ≡ t)
same_text s t = elim (Bool-cases (str_eq s t)) [
  | inl e ↦ yes ((eq_iff s t).0 e)
  | inr e ↦ no (λ p. ground (arith, eq_iff s t))
]

same_int : (a b : ℤ) → Dec (a ≡ b)
same_int (pos a) (pos b) = elim (ℕ_discrete a b) [
  | yes e ↦ yes (ap pos e)
  | no n ↦ no (λ e. n (ground (arith, e)))
]
same_int (negsuc a) (negsuc b) = elim (ℕ_discrete a b) [
  | yes e ↦ yes (ap negsuc e)
  | no n ↦ no (λ e. n (ground (arith, e)))
]
same_int (pos a) (negsuc b) = no (λ e. ground (arith, e))
same_int (negsuc a) (pos b) = no (λ e. ground (arith, e))

same_data : (p q : SearchParams) → key_data p ≡ key_data q → p ≡ q
unfolding key_data
same_data p q h =
    ap
      (λ (k : KeyData). record {
        text = k.text;
        area = k.area;
        per_page = k.per_page;
        page = k.page;
      })
      h

same_fields : (p q : SearchParams) → Dec (key_data p ≡ key_data q)
unfolding key_data
same_fields p q = elim (same_text p.text q.text) [
  | no n ↦ no (λ e. n (ap (λ (k : KeyData). k.text) e))
  | yes e ↦ elim (same_text p.area q.area) [
    | no n ↦ no (λ e. n (ap (λ (k : KeyData). k.area) e))
    | yes e' ↦ elim (same_int p.per_page q.per_page) [
      | no n ↦ no (λ e. n (ap (λ (k : KeyData). k.per_page) e))
      | yes f ↦ elim (same_int p.page q.page) [
        | no n ↦ no (λ e. n (ap (λ (k : KeyData). k.page) e))
        | yes f' ↦ yes (cc (e, e', f, f'))
      ]
    ]
  ]
]

module _ {Byte : Type 0} (lib : Digests Byte) where
  -- The digits of `hash[:16]`.
  pub digits : List Byte → String
  digits bytes = lib.encode_to_string (take 16 (lib.sum256 bytes))

  hash_of_data : Error ⊎ List Byte → String × Option Error
  unfolding digits
  hash_of_data (inl e) = ("", some (wrap "Error while marshaling of params: " e "\n"))
  hash_of_data (inr bytes) = (digits bytes, none)

  unfoldable pub gen_hash_from_search_param : GenHash
  unfolding hash_of_data key_data
  gen_hash_from_search_param params = hash_of_data (lib.marshal (key_data params))

  -- The encodings of these parameters collide: they are of different data, and have the same digits.
  abbrev pub Collide : SearchParams → SearchParams → Type 0
  Collide p q =
      (key_data p ≢ key_data q)
      × (x : List Byte) × (y : List Byte) × (lib.marshal (key_data p) ≡ inr x)
      × (lib.marshal (key_data q) ≡ inr y)
      × (digits x ≡ digits y)

  same_digits :
      (p q : SearchParams) (hash : String) (a b : Error ⊎ List Byte)
      → lib.marshal (key_data p) ≡ a
      → lib.marshal (key_data q) ≡ b
      → hash_of_data a ≡ (hash, none)
      → hash_of_data b ≡ (hash, none)
      → key_data p ≢ key_data q
      → Collide p q
  unfolding hash_of_data
  same_digits p q hash (inl e) b i j g h n = absurd (ground (arith, g))
  same_digits p q hash (inr x) (inl e) i j g h n = absurd (ground (arith, h))
  same_digits p q hash (inr x) (inr y) i j g h n = (n, x, y, i, j, ground (arith, g, h))

  -- Two searches share a key only if their parameters are the same, all four of them, or their
  -- encodings collide.
  pub same_search :
      (p q : SearchParams) (hash : String)
      → gen_hash_from_search_param p ≡ (hash, none)
      → gen_hash_from_search_param q ≡ (hash, none)
      → (p ≡ q) ⊎ Collide p q
  unfolding gen_hash_from_search_param
  same_search p q hash g h = elim (same_fields p q) [
    | yes e ↦ inl (same_data p q e)
    | no n ↦
        inr (
          same_digits p q hash (lib.marshal (key_data p)) (lib.marshal (key_data q)) refl refl g h
            n)
  ]
