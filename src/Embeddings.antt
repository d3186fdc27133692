-- ===== src/Embeddings.antt =====
-- crates/nomiso-core/src/embedding.rs: the identity of embedding models; and the floating-point
-- numbers of embeddings and confidences.
pub mod Comparison
use nomiso.Prelude.{ℕ, ◌*◌, ◌^◌, Bool, true, false, ◌&&◌, ◌||◌, not, Option, none, some, ◌==◌, leb}
use nomiso.Prelude.Text.{Text, codes, text_eq}

-- `f32` and `f64`: a finite value is `± mantissa * 2 ^ up / 2 ^ down`, true: negative.
pub data Float : Type 0 where
  nan : Float
  infinite : Bool → Float
  finite : Bool → ℕ → ℕ → ℕ → Float

unfoldable pub is_finite : Float → Bool
is_finite (finite negative mantissa up down) = true
is_finite _ = false

-- `(0.0..=1.0).contains(&v)`, where -0.0 counts as 0.0
unfoldable pub in_unit : Float → Bool
in_unit (finite negative mantissa up down) =
    mantissa == 0 || (not negative && leb (mantissa * 2 ^ up) (2 ^ down))
in_unit _ = false

pub data EmbeddingNormalization : Type 0 where
  l2 normalization_none normalization_unknown : EmbeddingNormalization

pub record EmbeddingIdentity : Type 0 where
  pub family : Text
  pub model : Text
  pub dimension : ℕ
  pub normalization : EmbeddingNormalization
  pub encoding : Text
  pub limitation : Option Text

unfoldable pub unknown : ℕ → EmbeddingIdentity
unknown dimension = record {
  family = codes "unknown";
  model = codes "unknown";
  dimension = dimension;
  normalization = normalization_unknown;
  encoding = codes "f32";
  limitation = some (
      codes
        "embedding identity not recorded; vectors predate identity tracking or were never declared");
}

unfoldable pub is_unknown : EmbeddingIdentity → Bool
is_unknown self = text_eq self.family (codes "unknown") && text_eq self.model (codes "unknown")

abbrev same_normalization : EmbeddingNormalization → EmbeddingNormalization → Bool
same_normalization l2 l2 = true
same_normalization normalization_none normalization_none = true
same_normalization normalization_unknown normalization_unknown = true
same_normalization _ _ = false

unfoldable pub compatible_with : EmbeddingIdentity → EmbeddingIdentity → Bool
compatible_with self other =
    text_eq self.family other.family
    && (text_eq self.model other.model
        && (self.dimension == other.dimension
            && (same_normalization self.normalization other.normalization
                && text_eq self.encoding other.encoding)))
