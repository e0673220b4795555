-- ===== src/Router/Models.antt =====
-- src/router.rs: how a model name becomes a provider and a model.
use skyport.Prelude.{
  ◌≡◌, ap, ◌∙◌, ◌↔◌, inl, inr, none, some, ◌∷◌, ◌++◌, arith, Option-cases, lookup, Text, split_once,
  Absent, split_once-append, split_once-none, Absent-split_once, split_once-some, ok,
}
use skyport.Config.{SkyportConfig}
use skyport.Router.{resolve}

-- The order of resolution: the model map first, its value split at the first slash or else a
-- provider for the name itself; then the name split at its first slash; then the default provider.
pub data Resolves {Money : Type 0} (cfg : SkyportConfig Money) (name provider model : Text)
    : Type 0 where
  mapped_pair :
      Absent b'/' provider
      → lookup name cfg.routing.model_map ≡ some (provider ++ b'/' ∷ model)
      → Resolves cfg name provider model
  mapped_provider :
      Absent b'/' provider
      → lookup name cfg.routing.model_map ≡ some provider
      → model ≡ name
      → Resolves cfg name provider model
  named :
      Absent b'/' provider
      → lookup name cfg.routing.model_map ≡ none
      → name ≡ provider ++ b'/' ∷ model
      → Resolves cfg name provider model
  default :
      Absent b'/' name
      → lookup name cfg.routing.model_map ≡ none
      → cfg.routing.default_provider ≡ some provider
      → model ≡ name
      → Resolves cfg name provider model

module _ {Money : Type 0} (cfg : SkyportConfig Money) (name provider model : Text) where
  resolve_complete : Resolves cfg name provider model → resolve cfg name ≡ ok (provider, model)
  unfolding resolve
  resolve_complete (mapped_pair plain m) =
      ground (arith, split_once-append b'/' provider model plain)
  resolve_complete (mapped_provider plain m e) = ground (arith, split_once-none b'/' provider plain)
  resolve_complete (named plain m e) = ground (arith, split_once-append b'/' provider model plain)
  resolve_complete (default plain m d e) = ground (arith, split_once-none b'/' name plain)

  resolve-named :
      lookup name cfg.routing.model_map ≡ none
      → resolve cfg name ≡ ok (provider, model)
      → Resolves cfg name provider model
  unfolding resolve
  resolve-named m h = elim (Option-cases (split_once b'/' name)) [
    | inl n ↦ default (Absent-split_once b'/' name n) m (ground arith) (ground arith)
    | inr ((a, b), found) ↦
        let (whole, plain) = split_once-some b'/' name a b found in
        let ea : a ≡ provider = ground arith in
        let eb : b ≡ model = ground arith in named (rw ea at plain) m (rw (ea, eb) at whole)
  ]

  resolve-mapped :
      (mapped : Text)
      → lookup name cfg.routing.model_map ≡ some mapped
      → resolve cfg name ≡ ok (provider, model)
      → Resolves cfg name provider model
  unfolding resolve
  resolve-mapped mapped m h = elim (Option-cases (split_once b'/' mapped)) [
    | inl n ↦
        let e : mapped ≡ provider = ground arith in
        mapped_provider (rw e at (Absent-split_once b'/' mapped n)) (rw e at m) (ground arith)
    | inr ((a, b), found) ↦
        let (whole, plain) = split_once-some b'/' mapped a b found in
        let ea : a ≡ provider = ground arith in
        let eb : b ≡ model = ground arith in
        mapped_pair (rw ea at plain) (m ∙ ap some (rw (ea, eb) at whole))
  ]

  resolve_sound : resolve cfg name ≡ ok (provider, model) → Resolves cfg name provider model
  resolve_sound h = elim (Option-cases (lookup name cfg.routing.model_map)) [
    | inl m ↦ resolve-named m h
    | inr (mapped, m) ↦ resolve-mapped mapped m h
  ]

  -- A name resolves to a provider and a model exactly as the order of resolution says.
  pub resolve-Resolves :
      (resolve cfg name ≡ ok (provider, model)) ↔ Resolves cfg name provider model
  resolve-Resolves = (resolve_sound, resolve_complete)
