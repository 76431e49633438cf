-- ===== src/Redis/Apart.antt =====
-- Different sales, and different counters of one sale, have different keys.
use flash_sale.Common.{
  ℕ, ◌≡◌, ◌≢◌, refl, sym, ap, ◌∙◌, some, Text, codes, List, [], ◌∷◌, ◌++◌, length, arith, same,
  same_iff, append_cancel_left,
}
use flash_sale.Platform.{Platform}
use flash_sale.Redis.Keys.{
  sale_key, available_key, reserved_key, meta_key, waitlist_key, idempotency_key, ttl_key,
}

append_split {ℓ} :
    {A : Type ℓ} (xs ys us vs : List A)
    → length xs ≡ length ys
    → xs ++ us ≡ ys ++ vs
    → (xs ≡ ys) × (us ≡ vs)
append_split [] [] us vs h e = (refl, e)
append_split [] (y ∷ ys) us vs h e = absurd (omega arith)
append_split (x ∷ xs) [] us vs h e = absurd (omega arith)
append_split (x ∷ xs) (y ∷ ys) us vs h e =
    let (p, q) = append_split xs ys us vs (omega arith) (ground arith) in (ground arith, q)

module _ (E : Platform) where
  uuid_string-injective : (a b : ℕ) → E.uuid_string a ≡ E.uuid_string b → a ≡ b
  uuid_string-injective a b e =
      let h : some a ≡ some b =
        sym (E.parse-uuid_string a) ∙ ap E.parse_uuid e ∙ E.parse-uuid_string b in
      cc

  -- The name of a sale's key determines the sale and the rest of the name.
  pub sale_key-injective :
      (a b : ℕ) (s t : Text) → sale_key E a s ≡ sale_key E b t → (a ≡ b) × (s ≡ t)
  unfolding sale_key
  sale_key-injective a b s t e =
      let (p, q) =
        append_split (E.uuid_string a) (E.uuid_string b) s t
          (E.length-uuid_string a ∙ sym (E.length-uuid_string b))
          (append_cancel_left (codes "sale:") (E.uuid_string a ++ s) (E.uuid_string b ++ t) e) in
      (uuid_string-injective a b p, q)

  pub sale_key-ne :
      (a b : ℕ) (s t : Text) → same s t ≡ same [] (0 ∷ []) → sale_key E a s ≢ sale_key E b t
  sale_key-ne a b s t d e = let h = (sale_key-injective a b s t e).1 in cc ((same_iff s t).1 h, d)

  pub reserved_key-ne-available_key : (a b : ℕ) → reserved_key E a ≢ available_key E b
  unfolding reserved_key available_key
  reserved_key-ne-available_key a b = sale_key-ne a b (codes ":reserved") (codes ":available") refl

  pub available_key-injective : (a b : ℕ) → available_key E a ≡ available_key E b → a ≡ b
  unfolding available_key
  available_key-injective a b e = (sale_key-injective a b _ _ e).0

  pub reserved_key-injective : (a b : ℕ) → reserved_key E a ≡ reserved_key E b → a ≡ b
  unfolding reserved_key
  reserved_key-injective a b e = (sale_key-injective a b _ _ e).0

  pub idempotency_key-ne-available_key :
      (a b : ℕ) (key : Text) → available_key E b ≢ idempotency_key E a key
  unfolding idempotency_key available_key
  idempotency_key-ne-available_key a b key =
      sale_key-ne b a (codes ":available") (codes ":idempotency:" ++ key) refl

  pub idempotency_key-ne-reserved_key :
      (a b : ℕ) (key : Text) → reserved_key E b ≢ idempotency_key E a key
  unfolding idempotency_key reserved_key
  idempotency_key-ne-reserved_key a b key =
      sale_key-ne b a (codes ":reserved") (codes ":idempotency:" ++ key) refl

  pub ttl_key-ne-sale_key : (a b : ℕ) (s : Text) → sale_key E b s ≢ ttl_key E a
  unfolding sale_key ttl_key
  ttl_key-ne-sale_key a b s e = ground arith

  pub ttl_key-ne-idempotency_key : (a b : ℕ) (key : Text) → ttl_key E a ≢ idempotency_key E b key
  unfolding idempotency_key
  ttl_key-ne-idempotency_key a b key e =
      ttl_key-ne-sale_key a b (codes ":idempotency:" ++ key) (sym e)

  pub available_key-ne-ttl_key : (a b : ℕ) → available_key E b ≢ ttl_key E a
  unfolding available_key
  available_key-ne-ttl_key a b = ttl_key-ne-sale_key a b (codes ":available")

  pub reserved_key-ne-ttl_key : (a b : ℕ) → reserved_key E b ≢ ttl_key E a
  unfolding reserved_key
  reserved_key-ne-ttl_key a b = ttl_key-ne-sale_key a b (codes ":reserved")

  pub waitlist_key-ne-available_key : (a b : ℕ) → waitlist_key E a ≢ available_key E b
  unfolding waitlist_key available_key
  waitlist_key-ne-available_key a b = sale_key-ne a b (codes ":waitlist") (codes ":available") refl

  pub waitlist_key-ne-reserved_key : (a b : ℕ) → waitlist_key E a ≢ reserved_key E b
  unfolding waitlist_key reserved_key
  waitlist_key-ne-reserved_key a b = sale_key-ne a b (codes ":waitlist") (codes ":reserved") refl

  pub available_key-ne-meta_key : (a b : ℕ) → available_key E b ≢ meta_key E a
  unfolding available_key meta_key
  available_key-ne-meta_key a b = sale_key-ne b a (codes ":available") (codes ":meta") refl

  pub reserved_key-ne-meta_key : (a b : ℕ) → reserved_key E b ≢ meta_key E a
  unfolding reserved_key meta_key
  reserved_key-ne-meta_key a b = sale_key-ne b a (codes ":reserved") (codes ":meta") refl

  pub idempotency_key-ne-waitlist_key :
      (a b : ℕ) (key : Text) → waitlist_key E b ≢ idempotency_key E a key
  unfolding idempotency_key waitlist_key
  idempotency_key-ne-waitlist_key a b key =
      sale_key-ne b a (codes ":waitlist") (codes ":idempotency:" ++ key) refl

  pub waitlist_key-ne-ttl_key : (a b : ℕ) → waitlist_key E b ≢ ttl_key E a
  unfolding waitlist_key
  waitlist_key-ne-ttl_key a b = ttl_key-ne-sale_key a b (codes ":waitlist")
