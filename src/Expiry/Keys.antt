-- ===== src/Expiry/Keys.antt =====
-- The key that Reserve arms is the one that the expiry handler takes apart.
use flash_sale.Common.{
  ℕ, ◌≡◌, refl, ap, ◌∙◌, some, [], ◌∷◌, ◌++◌, Text, codes, true, false, arith, holds_code,
}
use flash_sale.Platform.{Platform}
use flash_sale.Redis.Keys.{ttl_key}
use flash_sale.Expiry.{split, middle, expired_id, parsed, ends_with, is_reservation_key}

-- A separator ends the part before it.
split_part :
    (p rest : Text) → holds_code 58 p ≡ false → split 58 (p ++ (58 ∷ rest)) ≡ p ∷ split 58 rest
split_part [] rest h = refl
split_part (x ∷ p) rest h = ground (arith, split_part p rest)

ends_after : (p q : Text) → ends_with q q ≡ true → ends_with q (p ++ q) ≡ true
ends_after [] q h = h
ends_after (x ∷ p) q h = ground (arith, ends_after p q h)

module _ (E : Platform) where
  -- The key that Reserve arms for a reservation passes the filter of the expiry listener, and the
  -- handler reads the identifier of the reservation off it.
  pub expired_id-ttl_key :
      (id : ℕ)
      → (is_reservation_key (ttl_key E id) ≡ true) × (expired_id E (ttl_key E id) ≡ some id)
  unfolding ttl_key expired_id
  expired_id-ttl_key id =
      let u = E.uuid_string id in
      (
        ends_after (codes "reservation:" ++ u) (codes ":ttl") refl,
        ap (λ ps. parsed E (middle ([] ∷ ps)))
              (split_part u (codes "ttl") (E.uuid_string_no_colon id))
            ∙ E.parse-uuid_string id,
      )
