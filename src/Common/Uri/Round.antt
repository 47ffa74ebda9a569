-- ===== src/Common/Uri/Round.antt =====
-- Decoding what `encodeURIComponent` writes gives the text back.
use lexi_go.Common.Lists.{All}
use lexi_go.Common.Texts.{Text}
use lexi_go.Common.Tests.{ltb→lt, lt→ltb, ltb, leb, Bool-cases, ◌==◌}
use Prim.Native.Nat.{ℕ, zero, suc, ◌+◌, ◌-◌, ◌*◌, ◌/◌, ◌%◌, ◌<◌, ◌≤◌}
use mathlib.Core.Bool.{true, false, ◌&&◌}
use mathlib.Core.Option.{Option, none, some}
use mathlib.Core.Path.{◌≡◌, refl, subst, sym, ap, ◌∙◌}
use mathlib.Core.Logic.{inl, inr}
use mathlib.Core.List.{List, [], ◌∷◌, ◌++◌}
use native.Mathlib.Omega.{arith}
use lexi_go.Common.Uri.{
  is_unreserved, is_high, is_low, combine, units, utf8, hex, escape, prefix, encode_from,
  encode_uri_component, hex_value, Token, plain, byte, idle, percent, digit, push_token,
  is_continuation, tokens, ready, more, read, is_scalar, read_tokens, decode_uri_component,
}

hex_value-hex : (n : ℕ) → n < 16 → hex_value (hex n) ≡ some n
unfolding hex_value
hex_value-hex n h = ground arith

tokens-percent :
    (c h : ℕ) (s : Text) → hex_value c ≡ some h → tokens percent (c ∷ s) ≡ tokens (digit h) s
unfolding tokens
tokens-percent c h s e = rw (e, tokens)

tokens-digit :
    (h c l : ℕ) (s : Text)
    → hex_value c ≡ some l
    → tokens (digit h) (c ∷ s) ≡ push_token (byte (16 * h + l)) (tokens idle s)
unfolding tokens
tokens-digit h c l s e = rw (e, tokens)

tokens-escape_byte :
    (b : ℕ) (s : Text)
    → b < 256
    → tokens idle (37 ∷ hex (b / 16) ∷ hex (b % 16) ∷ s) ≡ push_token (byte b) (tokens idle s)
unfolding tokens
tokens-escape_byte b s h =
    tokens-percent (hex (b / 16)) (b / 16) (hex (b % 16) ∷ s) (hex_value-hex (b / 16) (omega arith))
    ∙ tokens-digit (b / 16) (hex (b % 16)) (b % 16) s (hex_value-hex (b % 16) (omega arith))
    ∙ ap (λ k. push_token (byte k) (tokens idle s)) (omega arith)

abbrev push_bytes : List ℕ → Option (List Token) → Option (List Token)
push_bytes [] o = o
push_bytes (b ∷ bs) o = push_token (byte b) (push_bytes bs o)

tokens-escape :
    (bs : List ℕ) (s : Text)
    → All (λ b. b < 256) bs
    → tokens idle (escape bs ++ s) ≡ push_bytes bs (tokens idle s)
tokens-escape [] s h = refl
tokens-escape (b ∷ bs) s h =
    tokens-escape_byte b (escape bs ++ s) h.0 ∙ ap (push_token (byte b)) (tokens-escape bs s h.1)

pub utf8-lt : (c : ℕ) → c < 1114112 → All (λ b. b < 256) (utf8 c)
utf8-lt c h = ground arith

abbrev pub IsScalar : ℕ → Type 0
IsScalar c = (c < 1114112) × ((leb 55296 c && leb c 57343) ≡ false)

module _ (b : ℕ) (ts : List Token) where
  read-two : 192 ≤ b → b < 224 → read ready (byte b ∷ ts) ≡ read (more 0 (b - 192) 128) ts
  unfolding read
  read-two h k = ground arith

  read-three : 224 ≤ b → b < 240 → read ready (byte b ∷ ts) ≡ read (more 1 (b - 224) 2048) ts
  unfolding read
  read-three h k = ground arith

  read-four : 240 ≤ b → b < 248 → read ready (byte b ∷ ts) ≡ read (more 2 (b - 240) 65536) ts
  unfolding read
  read-four h k = ground arith

-- A byte of an escape that is not the first: `128 + x`.
module _ (v low x : ℕ) (ts : List Token) (small : x < 64) where
  read-more :
      (n : ℕ) → read (more (suc n) v low) (byte (128 + x) ∷ ts) ≡ read (more n (v * 64 + x) low) ts
  unfolding read
  read-more n = ground arith

  read-last :
      (c : ℕ)
      → v * 64 + x ≡ c
      → is_scalar low c ≡ true
      → read (more zero v low) (byte (128 + x) ∷ ts) ≡ prefix (units c) (read ready ts)
  unfolding read
  read-last c e h =
      let bits : v * 64 + (128 + x - 128) ≡ c = omega arith in
      let start : is_continuation (128 + x) ≡ true = ground arith in rw (start, bits) (rw h)

module _ (c : ℕ) (ts : List Token) where
  abbrev ReadBack : List ℕ → Type 0
  ReadBack bs = read_tokens (push_bytes bs (some ts)) ≡ prefix (units c) (read ready ts)

  read_one : c < 128 → ReadBack (c ∷ [])
  unfolding read
  read_one h = ground arith

  read_two : 128 ≤ c → c < 2048 → ReadBack ((192 + c / 64) ∷ (128 + c % 64) ∷ [])
  read_two h k =
      read-two (192 + c / 64) (byte (128 + c % 64) ∷ ts) (omega arith) (omega arith)
      ∙ read-last (192 + c / 64 - 192) 128 (c % 64) ts (omega arith) c (omega arith) (ground arith)

  read_three :
      2048 ≤ c
      → c < 65536
      → (leb 55296 c && leb c 57343) ≡ false
      → ReadBack ((224 + c / 4096) ∷ (128 + c / 64 % 64) ∷ (128 + c % 64) ∷ [])
  read_three h k pair =
      read-three (224 + c / 4096) (byte (128 + c / 64 % 64) ∷ byte (128 + c % 64) ∷ ts)
        (omega arith) (omega arith)
      ∙ read-more (224 + c / 4096 - 224) 2048 (c / 64 % 64) (byte (128 + c % 64) ∷ ts) (omega arith)
          0
      ∙ read-last ((224 + c / 4096 - 224) * 64 + c / 64 % 64) 2048 (c % 64) ts (omega arith) c
          (omega arith) (rw pair (ground arith))

  read_four :
      65536 ≤ c
      → c < 1114112
      → ReadBack
          ((240 + c / 262144) ∷ (128 + c / 4096 % 64) ∷ (128 + c / 64 % 64) ∷ (128 + c % 64) ∷ [])
  read_four h k =
      read-four (240 + c / 262144)
        (byte (128 + c / 4096 % 64) ∷ byte (128 + c / 64 % 64) ∷ byte (128 + c % 64) ∷ ts)
        (omega arith) (omega arith)
      ∙ read-more (240 + c / 262144 - 240) 65536 (c / 4096 % 64)
          (byte (128 + c / 64 % 64) ∷ byte (128 + c % 64) ∷ ts) (omega arith) 1
      ∙ read-more ((240 + c / 262144 - 240) * 64 + c / 4096 % 64) 65536 (c / 64 % 64)
          (byte (128 + c % 64) ∷ ts) (omega arith) 0
      ∙ read-last (((240 + c / 262144 - 240) * 64 + c / 4096 % 64) * 64 + c / 64 % 64) 65536
          (c % 64) ts (omega arith) c (omega arith) (ground arith)

  read_utf8 : IsScalar c → ReadBack (utf8 c)
  read_utf8 h = elim (Bool-cases (ltb c 128)) [
    | inl one ↦
        let e : utf8 c ≡ c ∷ [] = rw one refl in subst ReadBack (sym e) (read_one (ltb→lt _ _ one))
    | inr k ↦ elim (Bool-cases (ltb c 2048)) [
      | inl two ↦
          let e : utf8 c ≡ (192 + c / 64) ∷ (128 + c % 64) ∷ [] = rw (k, two) refl in
          subst ReadBack (sym e) (read_two (ground arith) (ltb→lt _ _ two))
      | inr k2 ↦ elim (Bool-cases (ltb c 65536)) [
        | inl three ↦
            let e : utf8 c ≡ (224 + c / 4096) ∷ (128 + c / 64 % 64) ∷ (128 + c % 64) ∷ [] =
              rw (k, k2, three) refl in
            subst ReadBack (sym e) (read_three (ground arith) (ltb→lt _ _ three) h.1)
        | inr four ↦
            let e : utf8 c
                ≡ (240 + c / 262144)
                  ∷ (128 + c / 4096 % 64)
                  ∷ (128 + c / 64 % 64)
                  ∷ (128 + c % 64)
                  ∷ [] =
              rw (k, k2, four) refl in
            subst ReadBack (sym e) (read_four (ground arith) h.0)
      ]
    ]
  ]

push_bytes-none : (bs : List ℕ) → push_bytes bs none ≡ none
push_bytes-none [] = refl
push_bytes-none (b ∷ bs) = rw (push_bytes-none bs) refl

read-utf8 :
    (c : ℕ) (o : Option (List Token))
    → IsScalar c
    → read_tokens (push_bytes (utf8 c) o) ≡ prefix (units c) (read_tokens o)
read-utf8 c none h = rw (push_bytes-none (utf8 c)) refl
read-utf8 c (some ts) h = read_utf8 c ts h

decode-escape :
    (c : ℕ) (r s : Text)
    → IsScalar c
    → decode_uri_component r ≡ some s
    → decode_uri_component (escape (utf8 c) ++ r) ≡ some (units c ++ s)
unfolding decode_uri_component
decode-escape c r s h e =
    ap read_tokens (tokens-escape (utf8 c) r (utf8-lt c h.0))
    ∙ read-utf8 c (tokens idle r) h
    ∙ ap (prefix (units c)) e

decode-plain :
    (c : ℕ) (r s : Text)
    → (c == 37) ≡ false
    → decode_uri_component r ≡ some s
    → decode_uri_component (c ∷ r) ≡ some (c ∷ s)
unfolding decode_uri_component
decode-plain c r s h e = rw h (pushed (tokens idle r) e)
  where
    pushed :
        (o : Option (List Token))
        → read_tokens o ≡ some s
        → read_tokens (push_token (plain c) o) ≡ some (c ∷ s)
    pushed none k = cc
    pushed (some ts) k = rw k refl

-- A text of code units; `p` is a high surrogate or nothing.
abbrev pub AreUnits : Text → Type 0
AreUnits s = All (λ c. c < 65536) s

abbrev pub IsWaiting : Option ℕ → Type 0
IsWaiting none = Unit
IsWaiting (some h) = is_high h ≡ true

abbrev with_waiting : Option ℕ → Text → Text
with_waiting none s = s
with_waiting (some h) s = h ∷ s

pub prefix-eq-some :
    (s : Text) (o : Option Text) (t : Text)
    → prefix s o ≡ some t
    → (r : Text) × (o ≡ some r) × (t ≡ s ++ r)
prefix-eq-some s none t h = cc
prefix-eq-some s (some r) t h = (r, refl, cc)

module _ (w s : Text) (o : Option Text) (t : Text)
    (back : (r : Text) → o ≡ some r → decode_uri_component r ≡ some s) where
  decode-prefix-escape :
      (c : ℕ)
      → IsScalar c
      → units c ≡ w
      → prefix (escape (utf8 c)) o ≡ some t
      → decode_uri_component t ≡ some (w ++ s)
  decode-prefix-escape c h u e =
      let p : (r : Text) × (o ≡ some r) × (t ≡ escape (utf8 c) ++ r) = prefix-eq-some _ o t e in
      rw (p.2, ← u) (decode-escape c p.0 s h (back p.0 p.1))

decode-prefix-plain :
    (c : ℕ) (s : Text) (o : Option Text) (t : Text)
    → (c == 37) ≡ false
    → ((r : Text) → o ≡ some r → decode_uri_component r ≡ some s)
    → prefix (c ∷ []) o ≡ some t
    → decode_uri_component t ≡ some (c ∷ s)
decode-prefix-plain c s o t h back e =
    let p : (r : Text) × (o ≡ some r) × (t ≡ c ∷ r) = prefix-eq-some (c ∷ []) o t e in
    rw p.2 (decode-plain c p.0 s h (back p.0 p.1))

pub none-ne-some : {t : Text} → ◌≡◌ {A = Option Text} none (some t) → ⊥
none-ne-some e = cc

pub not-surrogate :
    (c : ℕ) → is_low c ≡ false → is_high c ≡ false → (leb 55296 c && leb c 57343) ≡ false
not-surrogate c l h = ground arith

pub combine-IsScalar : (h c : ℕ) → is_high h ≡ true → is_low c ≡ true → IsScalar (combine h c)
combine-IsScalar h c w l = ground arith

units-combine : (h c : ℕ) → is_high h ≡ true → is_low c ≡ true → units (combine h c) ≡ h ∷ c ∷ []
units-combine h c w l = ground arith

decode-encode_from :
    (p : Option ℕ) (s t : Text)
    → AreUnits s
    → IsWaiting p
    → encode_from p s ≡ some t
    → decode_uri_component t ≡ some (with_waiting p s)
unfolding encode_from decode_uri_component
decode-encode_from none [] t u w e =
    let q : [] ≡ t = cc in subst (λ (x : Text). decode_uri_component x ≡ some []) q refl
decode-encode_from (some h) [] t u w e = cc
decode-encode_from none (c ∷ s) t u w e = elim (Bool-cases (is_unreserved c)) [
  | inl free ↦
      decode-prefix-plain c s (encode_from none s) t (ground arith)
        (λ r k. decode-encode_from none s r u.1 tt k) (rw free at e)
  | inr k ↦ elim (Bool-cases (is_low c)) [
    | inl low ↦ absurd (none-ne-some (rw (k, low) at e))
    | inr k2 ↦ elim (Bool-cases (is_high c)) [
      | inl high ↦ decode-encode_from (some c) s t u.1 high (rw (k, k2, high) at e)
      | inr k3 ↦
          decode-prefix-escape (c ∷ []) s (encode_from none s) t
            (λ r k. decode-encode_from none s r u.1 tt k) c
            (omega (arith, u.0), not-surrogate c k2 k3) (rw (lt→ltb _ _ u.0) refl)
            (rw (k, k2, k3) at e)
    ]
  ]
]
decode-encode_from (some h) (c ∷ s) t u w e = elim (Bool-cases (is_low c)) [
  | inl low ↦
      decode-prefix-escape (h ∷ c ∷ []) s (encode_from none s) t
        (λ r k. decode-encode_from none s r u.1 tt k) (combine h c) (combine-IsScalar h c w low)
        (units-combine h c w low) (rw low at e)
  | inr k ↦ absurd (none-ne-some (rw k at e))
]

-- Where `encodeURIComponent` writes a text of code units, decoding gives it back.
pub decode-encode_uri_component :
    (s t : Text) → AreUnits s → encode_uri_component s ≡ some t → decode_uri_component t ≡ some s
unfolding encode_uri_component
decode-encode_uri_component s t u e = decode-encode_from none s t u tt e
