-- ===== src/Commands/Completion.antt =====
-- commands/commands.go: which names a word is completed to, and when the completion of labels panics.
use nyat.Common.{
  ℕ, Bool, true, false, List, [], ◌∷◌, ◌++◌, none, some, Text, ◌==◌, ==_iff, ltb, Option, text_eq,
  text_eq_iff, ◌&&◌, subst, ap, ◌∙◌, ◌≡◌, ◌≢◌, ◌↔◌, refl, arith, sym, Bool-cases, inl, inr,
}
use nyat.Commands.{
  Commands, command_names, has_prefix, names_with, nil_if_empty, complete_words, get_completions,
  ends_in_space, split_last, get_labels,
}
use nyat.Common.Dict.{text_key_eq, has, lookup}
use nyat.DirList.Unique.{InOrder, times, times-sort_stable, sort_stable-InOrder}
use nyat.MsgSort.Criteria.{sort_stable, text_lt}
use nyat.MsgSort.Orders.{text_lt-IsWeakOrder}
use nyat.Commands.Register.{has_name}

-- A text that begins with another.
abbrev pub Begins : Text → Text → Type 0
Begins prefix s = (t : Text) × (s ≡ prefix ++ t)

tail_eq : (d c : ℕ) (s t : Text) → ◌≡◌ {A = Text} (d ∷ s) (c ∷ t) → s ≡ t
tail_eq d c s t e = cc

head_eq : (d c : ℕ) (s t : Text) → ◌≡◌ {A = Text} (d ∷ s) (c ∷ t) → d ≡ c
head_eq d c s t e = cc

differ : (c d : ℕ) → (c == d) ≡ false → c ≢ d
differ c d h e = ground (arith, h, e)

has_prefix_iff : (s prefix : Text) → (has_prefix s prefix ≡ true) ↔ Begins prefix s
unfolding has_prefix
has_prefix_iff s [] = ((λ h. (s, refl)), (λ h. refl))
has_prefix_iff [] (c ∷ p) = ((λ h. cc), (λ h. cc))
has_prefix_iff (d ∷ s) (c ∷ p) =
    let (f, g) = has_prefix_iff s p in
    elim (Bool-cases (c == d)) [
      | inl e ↦ rw e (
        (λ h. let (t, q) = f h in let k = (==_iff c d).0 e in (t, cc)),
        (λ b. g (b.0, tail_eq d c s (p ++ b.0) b.1)),
      )
      | inr e ↦ rw e ((λ h. cc), (λ b. absurd (differ c d e (sym (head_eq d c s (p ++ b.0) b.1)))))
    ]

-- The names that are offered.
abbrev pub offered : Option (Option (List Text)) → List Text
offered none = []
offered (some none) = []
offered (some (some options)) = options

has_name-command_names : (o : Text) (cmds : Commands) → has_name o (command_names cmds) ≡ has o cmds
unfolding command_names lookup
has_name-command_names o [] = refl
has_name-command_names o ((n, c) ∷ cmds) = ground (arith, has_name-command_names o cmds)

-- A name is left if it was there and begins with the prefix.
has_name-names_with :
    (o prefix : Text) (names : List Text)
    → has_name o (names_with prefix names) ≡ (has_name o names && has_prefix o prefix)
unfolding names_with
has_name-names_with o prefix [] = refl
has_name-names_with o prefix (n ∷ names) =
    let ih = has_name-names_with o prefix names in
    elim (Bool-cases (text_eq n o)) [
      | inl e ↦
          let same = (text_eq_iff n o).0 e in
          subst
            (λ z.
              has_name z (names_with prefix (n ∷ names))
              ≡ (has_name z (n ∷ names) && has_prefix z prefix))
            same (ground (arith, has_name-names_with n prefix names, text_eq_iff n n))
      | inr e ↦ ground (arith, e, ih)
    ]

not_spaced :
    (cmd : Text) (cmds : Commands) (name : Text)
    → ends_in_space cmd ≡ some false
    → get_completions cmds cmd (some (name ∷ []))
      ≡ some (nil_if_empty (names_with name (command_names cmds)))
unfolding get_completions complete_words
not_spaced cmd cmds name h = rw h refl

offered-nil_if_empty : (names : List Text) → offered (some (nil_if_empty names)) ≡ names
unfolding nil_if_empty
offered-nil_if_empty [] = refl
offered-nil_if_empty (n ∷ names) = refl

both : (a b : Bool) → (a && b) ≡ true → (a ≡ true) × (b ≡ true)
both true true h = (refl, refl)
both true false h = cc
both false b h = cc

has_name-times : (o : Text) (names : List Text) → has_name o names ≡ ltb 0 (times o names)
has_name-times o [] = refl
has_name-times o (n ∷ names) = ground (arith, has_name-times o names)

-- Every name, sorted.
all_names :
    (cmds : Commands) (cmd : Text)
    → offered (get_completions cmds cmd (some [])) ≡ sort_stable text_lt (command_names cmds)
unfolding get_completions
all_names cmds cmd = refl

has_name-all_names :
    (cmds : Commands) (cmd o : Text)
    → has_name o (offered (get_completions cmds cmd (some []))) ≡ has o cmds
has_name-all_names cmds cmd o =
    let sorted = sort_stable text_lt (command_names cmds) in
    ap (has_name o) (all_names cmds cmd)
    ∙ has_name-times o sorted
    ∙ ap (ltb 0) (times-sort_stable text_lt o (command_names cmds))
    ∙ sym (has_name-times o (command_names cmds))
    ∙ has_name-command_names o cmds

ends_in_space-append :
    (front : Text) (c : ℕ) → c ≢ 32 → ends_in_space (front ++ c ∷ []) ≡ some false
unfolding ends_in_space
ends_in_space-append [] c h = ground (arith, h)
ends_in_space-append (x ∷ []) c h = ground (arith, h)
ends_in_space-append (x ∷ y ∷ front) c h = ends_in_space-append (y ∷ front) c h

-- A line without words, be it empty or of blanks, is completed to the names of all commands that are
-- registered, and to no others, in their order as texts. A line of one word without a space behind it
-- is completed to just those that begin with the word.
pub get_completions-has :
    (cmds : Commands) (blank front : Text) (c : ℕ) (name : Text)
    → c ≢ 32
    → InOrder text_lt (offered (get_completions cmds blank (some [])))
      × ((o : Text)
          → (has_name o (offered (get_completions cmds blank (some []))) ≡ has o cmds)
            × ((has_name o (offered (get_completions cmds (front ++ c ∷ []) (some (name ∷ []))))
                  ≡ true)
                ↔ ((has o cmds ≡ true) × Begins name o)))
get_completions-has cmds blank front c name h = (
  subst (InOrder text_lt) (sym (all_names cmds blank))
      (sort_stable-InOrder text_lt text_lt-IsWeakOrder (command_names cmds)),
  (λ o.
      let e =
        ap (λ z. has_name o (offered z))
          (not_spaced (front ++ c ∷ []) cmds name (ends_in_space-append front c h))
        ∙ ap (has_name o) (offered-nil_if_empty (names_with name (command_names cmds)))
        ∙ has_name-names_with o name (command_names cmds)
        ∙ ap (λ b. b && has_prefix o name) (has_name-command_names o cmds) in
      let (f, g) = has_prefix_iff o name in
      (
        has_name-all_names cmds blank o,
        (
          (λ k. let (a, b) = both (has o cmds) (has_prefix o name) (sym e ∙ k) in (a, f b)),
          (λ k. e ∙ rw (k.0, g k.1) refl),
        ),
      )),
)

split_last-append :
    (w : Text) (ws : List Text) (v : Text) → split_last w (ws ++ v ∷ []) ≡ (w ∷ ws, v)
unfolding split_last
split_last-append w [] v = refl
split_last-append w (x ∷ ws) v = rw (split_last-append x ws v) refl

module _ (is_upper : ℕ → Bool) (lower : ℕ → ℕ) where
  -- The completion of labels panics if the last word is empty, whatever stands before it.
  pub get_labels_empty :
      (labels : List Text) (w : Text) (ws : List Text)
      → (get_labels is_upper lower labels ([] ∷ []) ≡ none)
        × (get_labels is_upper lower labels (w ∷ (ws ++ [] ∷ [])) ≡ none)
  unfolding get_labels split_last
  get_labels_empty labels w ws = (refl, rw (get_labels, split_last-append w ws []) refl)
