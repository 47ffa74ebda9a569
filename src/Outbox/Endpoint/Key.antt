-- ===== src/Outbox/Endpoint/Key.antt =====
-- The operation key tells reviews apart.
use lexi_go.Common.{ℕ, Bool, true, false, not, [], ◌∷◌, ◌++◌, Text, ◌==◌, ◌≡◌, refl, arith, all}
use lexi_go.Common.Decimal.{is_digit, show, all-show, show-injective}
use lexi_go.Outbox.Endpoint.{ReviewEndpoint, review_operation_key}

abbrev pub no_colon : ℕ → Bool
no_colon c = not (c == b':')

digit-no_colon : (s : Text) → all is_digit s ≡ true → all no_colon s ≡ true
digit-no_colon [] h = refl
digit-no_colon (c ∷ s) h = ground (arith, digit-no_colon s)

colon_inside : (s t : Text) → all no_colon (s ++ b':' ∷ t) ≡ false
colon_inside [] t = refl
colon_inside (c ∷ s) t = ground (arith, colon_inside s t)

-- Text that ends in a colon and a part with none splits in one way.
split_last :
    (a b c d : Text)
    → all no_colon b ≡ true
    → all no_colon d ≡ true
    → a ++ b':' ∷ b ≡ c ++ b':' ∷ d
    → (a ≡ c) × (b ≡ d)
split_last [] b [] d h k e = (refl, cc)
split_last [] b (y ∷ c) d h k e = absurd (ground (arith, colon_inside c d))
split_last (x ∷ a) b [] d h k e = absurd (ground (arith, colon_inside a b))
split_last (x ∷ a) b (y ∷ c) d h k e =
    let (p, q) = split_last a b c d h k (ground arith) in (ground arith, q)

show-no_colon : (n : ℕ) → all no_colon (show n) ≡ true
show-no_colon n = digit-no_colon (show n) (all-show n)

-- Two reviews have one operation key only if they are by the same user, of the same word of the
-- same lesson, at the same lesson version, for lesson ids that hold no colon.
pub review_operation_key-injective :
    (u v : Text) (d e : ReviewEndpoint) (m n : ℕ)
    → all no_colon d.lesson_id ≡ true
    → all no_colon e.lesson_id ≡ true
    → review_operation_key u d m ≡ review_operation_key v e n
    → (u ≡ v) × (d ≡ e) × (m ≡ n)
unfolding review_operation_key
review_operation_key-injective u v d e m n h k same =
    let (left, version) = split_last _ _ _ _ (show-no_colon m) (show-no_colon n) same in
    let (inner, word) =
      split_last _ _ _ _ (show-no_colon d.word_id) (show-no_colon e.word_id) left in
    let (user, lesson) = split_last u d.lesson_id v e.lesson_id h k inner in
    let w = show-injective d.word_id e.word_id word in
    (user, λ i. record { lesson_id = lesson i; word_id = w i }, show-injective m n version)
