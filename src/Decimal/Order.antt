-- ===== src/Decimal/Order.antt =====
-- The order and the group of decimals: what the components use of the laws of `Shopspring`.
use fandos.Prelude.{◌≡◌, ap, ◌∙◌, inl, inr, true, false}
use fandos.Decimal.Interface.{Shopspring}

module _ (S : Shopspring) where
  open S use {
    Decimal, zero, add, sub, neg, mul, le, add_comm, add_assoc, add-zero, add-neg, sub-add,
    le_total, le_trans, le_antisymm, add_mono, mul-add,
  }

  infix 50 ◌⊑◌
  abbrev pub ◌⊑◌ : Decimal → Decimal → Type 0
  a ⊑ b = le a b ≡ true

  pub le_refl : (a : Decimal) → a ⊑ a
  le_refl a = elim (le_total a a) [ inl h ↦ h | inr h ↦ h ]

  pub le_of_not_le : (a b : Decimal) → le a b ≡ false → b ⊑ a
  le_of_not_le a b h = elim (le_total a b) [ inl p ↦ cc | inr p ↦ p ]

  pub zero-add : (a : Decimal) → add zero a ≡ a
  zero-add a = add_comm zero a ∙ add-zero a

  pub sub_self : (a : Decimal) → sub a a ≡ zero
  sub_self a = sub-add a a ∙ add-neg a

  pub sub-zero : (a : Decimal) → sub a zero ≡ a
  sub-zero a = cc (sub-add a zero, add-neg zero, zero-add (neg zero), add-zero a)

  -- `(a - b) + b` is `a`.
  pub sub_add_cancel : (a b : Decimal) → add (sub a b) b ≡ a
  sub_add_cancel a b =
      cc (sub-add a b, add_assoc a (neg b) b, add_comm (neg b) b, add-neg b, add-zero a)

  -- `(a + b) - b` is `a`.
  pub add_sub_cancel : (a b : Decimal) → sub (add a b) b ≡ a
  add_sub_cancel a b = cc (sub-add (add a b) b, add_assoc a b (neg b), add-neg b, add-zero a)

  -- `(a + b) + (c - b)` is `a + c`.
  pub add_transfer : (a b c : Decimal) → add (add a b) (sub c b) ≡ add a c
  add_transfer a b c =
      add_assoc a b (sub c b) ∙ ap (add a) (add_comm b (sub c b) ∙ sub_add_cancel c b)

  pub sub_mono : (a b c : Decimal) → a ⊑ b → sub a c ⊑ sub b c
  sub_mono a b c h = cc (sub-add a c, sub-add b c, add_mono a b (neg c) h)

  pub sub_nonneg : (a b : Decimal) → b ⊑ a → zero ⊑ sub a b
  sub_nonneg a b h = cc (sub_mono b a b h, sub_self b)

  pub le_of_sub_nonneg : (a b : Decimal) → zero ⊑ sub a b → b ⊑ a
  le_of_sub_nonneg a b h = cc (add_mono zero (sub a b) b h, zero-add b, sub_add_cancel a b)

  pub add_mono₂ : (a b c d : Decimal) → a ⊑ b → c ⊑ d → add a c ⊑ add b d
  add_mono₂ a b c d h k =
      le_trans (add a c) (add b c) (add b d) (add_mono a b c h)
        (cc (add_comm b c, add_comm b d, add_mono c d b k))

  pub le_add : (a b : Decimal) → zero ⊑ b → a ⊑ add a b
  le_add a b h = cc (add_mono zero b a h, zero-add a, add_comm b a)

  pub sub_le : (a b : Decimal) → zero ⊑ b → sub a b ⊑ a
  sub_le a b h = cc (le_add (sub a b) b h, sub_add_cancel a b)

  -- A sum below a bound and the room that is left.
  pub add_le_of_le_sub : (a b c : Decimal) → b ⊑ sub c a → add a b ⊑ c
  add_le_of_le_sub a b c h = cc (add_mono b (sub c a) a h, sub_add_cancel c a, add_comm b a)

  -- The same with an excess over what is left.
  pub add_le_of_le_sub_add : (a b c s : Decimal) → b ⊑ add (sub c a) s → add a b ⊑ add c s
  add_le_of_le_sub_add a b c s h =
      let moved : add (sub c a) s ≡ sub (add c s) a = cc (
        sub-add c a,
        sub-add (add c s) a,
        add_assoc c (neg a) s,
        add_comm (neg a) s,
        add_assoc c s (neg a),
      ) in
      add_le_of_le_sub a b (add c s) (cc (h, moved))

  pub neg_neg : (a : Decimal) → neg (neg a) ≡ a
  neg_neg a = cc (
    add-neg a,
    add-neg (neg a),
    add_assoc a (neg a) (neg (neg a)),
    add-zero a,
    zero-add (neg (neg a)),
  )

  -- `a - b` and `b - a` are opposite.
  pub neg_sub : (a b : Decimal) → neg (sub a b) ≡ sub b a
  neg_sub a b = cc (
    zero-add (neg (sub a b)),
    add-neg (sub a b),
    opposite,
    add_assoc (sub b a) (sub a b) (neg (sub a b)),
    add-zero (sub b a),
  )
    where
      opposite : add (sub b a) (sub a b) ≡ zero
      opposite = cc (sub-add a b, add_assoc (sub b a) a (neg b), sub_add_cancel b a, add-neg b)

  pub neg_nonneg : (a : Decimal) → a ⊑ zero → zero ⊑ neg a
  neg_nonneg a h = cc (add_mono a zero (neg a) h, add-neg a, zero-add (neg a))

  pub mul-zero : (a : Decimal) → mul a zero ≡ zero
  mul-zero a =
      let x = mul a zero in
      cc (mul-add a zero zero, add-zero zero, add_assoc x x (neg x), add-neg x, add-zero x)
