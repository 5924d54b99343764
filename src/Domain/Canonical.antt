-- ===== src/Domain/Canonical.antt =====
-- Which texts crates/colui-domain/src/identity.rs accepts as ids.
use colui.Prelude.{
  ◌≡◌, ◌↔◌, some, ok, arith, nat_eq, list_eq, list_test_iff, Option-cases, inl, inr,
}
use colui.Domain.Text.{Text, Uuids}
use colui.Domain.AppError.{ProfileId}
use colui.Domain.Identity.{parse}

module _ ⦃u : Uuids⦄ where
  -- If the `uuid` crate reads back the text that it writes of an id, that text is the one text that
  -- is parsed to the id.
  pub parse-to_text :
      (id : ProfileId) (value : Text)
      → u.parse_str (u.to_text id) ≡ some id
      → (parse value ≡ ok id) ↔ (value ≡ u.to_text id)
  unfolding parse
  parse-to_text id value reads = elim (Option-cases (u.parse_str value)) [
    | inl e ↦ ground (arith, list_test_iff (u.to_text id) value)
    | inr (other, e) ↦
        ground (arith, list_test_iff (u.to_text id) value, list_test_iff (u.to_text other) value)
  ]
