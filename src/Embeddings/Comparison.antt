-- ===== src/Embeddings/Comparison.antt =====
-- When two embedding models may share an index.
use nomiso.Prelude.{◌≡◌, refl, ◌↔◌, true, none, arith}
use nomiso.Prelude.Text.{text_eq_iff}
use nomiso.Embeddings.{
  EmbeddingIdentity, EmbeddingNormalization, l2, normalization_none, normalization_unknown,
  same_normalization, compatible_with,
}

same_normalization_iff : (a b : EmbeddingNormalization) → (same_normalization a b ≡ true) ↔ (a ≡ b)
same_normalization_iff l2 l2 = (λ h. refl, λ h. refl)
same_normalization_iff normalization_none normalization_none = (λ h. refl, λ h. refl)
same_normalization_iff normalization_unknown normalization_unknown = (λ h. refl, λ h. refl)
same_normalization_iff _ _ = (λ h. absurd (cc h), λ h. absurd (cc h))

-- Two identities are compatible exactly when they are equal once their noted limitations are
-- dropped: the dimension alone is not enough.
compatible_with_iff :
    (a b : EmbeddingIdentity)
    → (compatible_with a b ≡ true) ↔ (
        ◌≡◌ {A = EmbeddingIdentity}
          (record a { limitation = none })
          (record b { limitation = none }))
unfolding compatible_with
compatible_with_iff a b = (
  λ h.
      let f : a.family ≡ b.family = ground (arith, text_eq_iff a.family b.family) in
      let m : a.model ≡ b.model = ground (arith, text_eq_iff a.model b.model) in
      let d : a.dimension ≡ b.dimension = ground arith in
      let n : a.normalization ≡ b.normalization =
        ground (arith, same_normalization_iff a.normalization b.normalization) in
      let e : a.encoding ≡ b.encoding = ground (arith, text_eq_iff a.encoding b.encoding) in cc,
  λ h.
      let f : a.family ≡ b.family = cc in
      let m : a.model ≡ b.model = cc in
      let d : a.dimension ≡ b.dimension = cc in
      let n : a.normalization ≡ b.normalization = cc in
      let e : a.encoding ≡ b.encoding = cc in
      ground (
        arith,
        text_eq_iff a.family b.family,
        text_eq_iff a.model b.model,
        same_normalization_iff a.normalization b.normalization,
        text_eq_iff a.encoding b.encoding,
      ),
)
