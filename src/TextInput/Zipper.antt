-- ===== src/TextInput/Zipper.antt =====
-- What the keys of lib/ui/textinput.go mean: a text as what stands left of the cursor, nearest
-- first, and what stands right of it, with the lists of `string_left` and `string_right`.
use nyat.Common.{
  ℕ, suc, ◌+◌, [], ◌∷◌, ◌++◌, Text, length, take, drop, get_elem?, ◌==◌, if◌then◌else◌, ◌≡◌, refl,
  arith,
}
use nyat.TextInput.{TextInput}
use nyat.TextInput.Events.{
  Key, backspace_key, backspace2_key, ctrl_d, delete_key, ctrl_b, left_key, ctrl_f, right_key,
  ctrl_a, home_key, ctrl_e, end_key, ctrl_k, ctrl_w, ctrl_u, rune_key,
}

pub record Zipper : Type 0 where
  pub left : Text
  pub right : Text

-- `left`, reversed, in front of `right`
abbrev pub rev_onto : Text → Text → Text
rev_onto [] right = right
rev_onto (c ∷ left) right = rev_onto left (c ∷ right)

-- What is left of a word's end when the word goes.
abbrev pub without_word : Text → Text
without_word [] = []
without_word (c ∷ left) = let rest = without_word left in if c == 32 then c ∷ left else rest

abbrev pub without_blank : Text → Text
without_blank [] = []
without_blank (c ∷ left) = if c == 32 then left else c ∷ left

abbrev pub tail : Text → Text
tail [] = []
tail (c ∷ cs) = cs

abbrev pub zip : Text → Text → Zipper
zip l r = record { left = l; right = r }

abbrev pub zip_left : Text → Text → Zipper
zip_left [] right = record { left = []; right = right }
zip_left (c ∷ left) right = record { left = left; right = c ∷ right }

abbrev pub zip_right : Text → Text → Zipper
zip_right left [] = record { left = left; right = [] }
zip_right left (c ∷ right) = record { left = c ∷ left; right = right }

abbrev pub edit : Key → Zipper → Zipper
edit backspace_key z = record z { left = tail z.left }
edit backspace2_key z = record z { left = tail z.left }
edit ctrl_d z = record z { right = tail z.right }
edit delete_key z = record z { right = tail z.right }
edit ctrl_b z = zip_left z.left z.right
edit left_key z = zip_left z.left z.right
edit ctrl_f z = zip_right z.left z.right
edit right_key z = zip_right z.left z.right
edit ctrl_a z = record { left = []; right = rev_onto z.left z.right }
edit home_key z = record { left = []; right = rev_onto z.left z.right }
edit ctrl_e z = record { left = rev_onto z.right z.left; right = [] }
edit end_key z = record { left = rev_onto z.right z.left; right = [] }
edit ctrl_k z = record z { right = [] }
edit ctrl_w z = record z { left = without_word (without_blank z.left) }
edit ctrl_u z = record z { left = [] }
edit (rune_key ch) z = record z { left = ch ∷ z.left }
edit _ z = z

-- The text is the zipper's, and the index is the cursor.
abbrev pub Shows : Zipper → TextInput → Type 0
Shows z ti = (ti.text ≡ rev_onto z.left z.right) × (ti.index ≡ length z.left)

pub length-rev_onto : (l r : Text) → length (rev_onto l r) ≡ length l + length r
length-rev_onto [] r = omega arith
length-rev_onto (c ∷ l) r = omega (arith, length-rev_onto l (c ∷ r))

add_suc : (a b : ℕ) → suc a + b ≡ a + suc b
add_suc a b = omega arith

-- The text behind, at and before a place counted from the cursor.
pub drop-rev_onto : (l r : Text) (n : ℕ) → drop (length l + n) (rev_onto l r) ≡ drop n r
drop-rev_onto [] r n = grind arith
drop-rev_onto (c ∷ l) r n = grind (arith, drop-rev_onto l (c ∷ r) (suc n), add_suc (length l) n)

pub get_elem?-rev_onto :
    (l r : Text) (n : ℕ) → get_elem? (rev_onto l r) (length l + n) ≡ get_elem? r n
get_elem?-rev_onto [] r n = grind arith
get_elem?-rev_onto (c ∷ l) r n =
    grind (arith, get_elem?-rev_onto l (c ∷ r) (suc n), add_suc (length l) n)

pub take-rev_onto :
    (l r : Text) (n : ℕ) → take (length l + n) (rev_onto l r) ≡ rev_onto l (take n r)
take-rev_onto [] r n = grind arith
take-rev_onto (c ∷ l) r n = grind (arith, take-rev_onto l (c ∷ r) (suc n), add_suc (length l) n)

pub append-rev_onto : (l r s : Text) → rev_onto l r ++ s ≡ rev_onto l (r ++ s)
append-rev_onto [] r s = refl
append-rev_onto (c ∷ l) r s = append-rev_onto l (c ∷ r) s

pub rev_onto-rev_onto : (l r : Text) → rev_onto (rev_onto l r) [] ≡ rev_onto r l
rev_onto-rev_onto [] r = refl
rev_onto-rev_onto (c ∷ l) r = rev_onto-rev_onto l (c ∷ r)
