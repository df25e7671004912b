-- ===== src/MsgSort/Orders.antt =====
-- The comparisons of worker/lib/sort.go are strict weak orders.
use nyat.Common.{
  ℕ, Bool, true, false, not, ◌&&◌, List, [], ◌∷◌, Text, ltb, if◌then◌else◌, ◌≡◌, refl, arith,
}
use nyat.Models.{
  Address, SortField, SortCriterion, sort_arrival, sort_cc, sort_date, sort_from, sort_read,
  sort_size, sort_subject, sort_to,
}
use nyat.MsgSort.Criteria.{
  envelope_of, text_lt, get_name, addresses_lt, flag_present, subject_key, field_lt, less_for,
}

-- No two elements are less than each other, and what is not less stays so along a chain.
pub record IsWeakOrder {ℓ} {A : Type ℓ} (less : A → A → Bool) : Type ℓ where
  pub asym : (a b : A) → less a b ≡ true → less b a ≡ false
  pub chain : (a b c : A) → less a b ≡ false → less b c ≡ false → less a c ≡ false

ltb-IsWeakOrder : IsWeakOrder ltb
ltb-IsWeakOrder = record { asym = λ a b h. ground arith; chain = λ a b c h k. ground arith }

pub text_lt_asym : (a b : Text) → text_lt a b ≡ true → text_lt b a ≡ false
unfolding text_lt
text_lt_asym [] [] h = refl
text_lt_asym [] (y ∷ ys) h = refl
text_lt_asym (x ∷ xs) [] h = cc
text_lt_asym (x ∷ xs) (y ∷ ys) h = ground (arith, h, text_lt_asym xs ys)

pub text_lt_chain : (a b c : Text) → text_lt a b ≡ false → text_lt b c ≡ false → text_lt a c ≡ false
unfolding text_lt
text_lt_chain a b [] h k = refl
text_lt_chain a [] (z ∷ zs) h k = cc
text_lt_chain [] (y ∷ ys) (z ∷ zs) h k = cc
text_lt_chain (x ∷ xs) (y ∷ ys) (z ∷ zs) h k = ground (arith, h, k, text_lt_chain xs ys zs)

pub text_lt-IsWeakOrder : IsWeakOrder text_lt
text_lt-IsWeakOrder = record { asym = text_lt_asym; chain = text_lt_chain }

addresses_lt_asym : (a b : List Address) → addresses_lt a b ≡ true → addresses_lt b a ≡ false
unfolding addresses_lt
addresses_lt_asym [] [] h = refl
addresses_lt_asym [] (y ∷ ys) h = cc
addresses_lt_asym (x ∷ xs) [] h = refl
addresses_lt_asym (x ∷ xs) (y ∷ ys) h = text_lt_asym (get_name x) (get_name y) h

addresses_lt_chain :
    (a b c : List Address)
    → addresses_lt a b ≡ false
    → addresses_lt b c ≡ false
    → addresses_lt a c ≡ false
unfolding addresses_lt
addresses_lt_chain [] b c h k = refl
addresses_lt_chain (x ∷ xs) [] c h k = cc
addresses_lt_chain (x ∷ xs) (y ∷ ys) [] h k = cc
addresses_lt_chain (x ∷ xs) (y ∷ ys) (z ∷ zs) h k =
    text_lt_chain (get_name x) (get_name y) (get_name z) h k

addresses_lt-IsWeakOrder : IsWeakOrder addresses_lt
addresses_lt-IsWeakOrder = record { asym = addresses_lt_asym; chain = addresses_lt_chain }

read_lt-IsWeakOrder : IsWeakOrder (λ a b. a && not b)
read_lt-IsWeakOrder = record { asym = λ a b h. ground arith; chain = λ a b c h k. ground arith }

-- An order of keys is one of what has the keys.
on_key {ℓ κ} :
    {A : Type ℓ} {B : Type κ} (less : B → B → Bool) (key : A → B)
    → IsWeakOrder less
    → IsWeakOrder (λ a b. less (key a) (key b))
on_key less key o = record {
  asym = λ a b h. o.asym (key a) (key b) h;
  chain = λ a b c h k. o.chain (key a) (key b) (key c) h k;
}

swapped {ℓ} : {A : Type ℓ} (less : A → A → Bool) → IsWeakOrder less → IsWeakOrder (λ a b. less b a)
swapped less o = record { asym = λ a b h. o.asym b a h; chain = λ a b c h k. o.chain c b a k h }

module _ (lower : ℕ → ℕ) where
  field_lt-IsWeakOrder : (f : SortField) → IsWeakOrder (field_lt lower f)
  unfolding field_lt
  field_lt-IsWeakOrder sort_arrival = on_key ltb (λ m. m.internal_date) ltb-IsWeakOrder
  field_lt-IsWeakOrder sort_cc =
      on_key addresses_lt (λ m. (envelope_of m).cc) addresses_lt-IsWeakOrder
  field_lt-IsWeakOrder sort_date = on_key ltb (λ m. (envelope_of m).date) ltb-IsWeakOrder
  field_lt-IsWeakOrder sort_from =
      on_key addresses_lt (λ m. (envelope_of m).from) addresses_lt-IsWeakOrder
  field_lt-IsWeakOrder sort_read =
      on_key (λ a b. a && not b) (λ m. flag_present m.flags) read_lt-IsWeakOrder
  field_lt-IsWeakOrder sort_size = on_key ltb (λ m. m.size) ltb-IsWeakOrder
  field_lt-IsWeakOrder sort_subject = on_key text_lt (subject_key lower) text_lt-IsWeakOrder
  field_lt-IsWeakOrder sort_to =
      on_key addresses_lt (λ m. (envelope_of m).to) addresses_lt-IsWeakOrder

  less_if-IsWeakOrder :
      (f : SortField) (r : Bool)
      → IsWeakOrder (λ a b. if r then field_lt lower f b a else field_lt lower f a b)
  less_if-IsWeakOrder f true = swapped (field_lt lower f) (field_lt-IsWeakOrder f)
  less_if-IsWeakOrder f false = field_lt-IsWeakOrder f

  pub less_for-IsWeakOrder : (c : SortCriterion) → IsWeakOrder (less_for lower c)
  unfolding less_for
  less_for-IsWeakOrder c = less_if-IsWeakOrder c.field c.reverse
