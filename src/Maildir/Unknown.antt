-- ===== src/Maildir/Unknown.antt =====
-- worker/maildir/search.go and worker/imap/search.go: a flag whose name is not known.
use nyat.Common.{
  ok, ℕ, Bool, true, false, List, [], ◌∷◌, ◌++◌, map, Text, codes, text_eq, mem, ◌≡◌, refl, arith,
  ap,
}
use nyat.Imap.Search.{Opt, FlagNames, opt_case, with_opt}
use nyat.Imap.Search
use nyat.Maildir.{Criteria, Parts, get_parsed_flag, parse_search, opts_loop, opt_step, add_subjects}
use nyat.Maildir.Matching.{meant, all_of}

-- The option -x with a flag.
abbrev pub with_named : Text → Opt
with_named name = record { option = 120; value = name }

module _ (is_upper : ℕ → Bool) (lower : ℕ → ℕ) where
  no_zero_flag :
      (flags fs : List ℕ)
      → mem 0 flags ≡ false
      → mem 0 fs ≡ true
      → all_of (λ f. mem f flags) fs ≡ false
  no_zero_flag flags [] h k = cc
  no_zero_flag flags (f ∷ fs) h k = ground (arith, h, k, no_zero_flag flags fs h)

  add_subjects-with_flags :
      (args : List Text) (c : Criteria)
      → (add_subjects is_upper lower args c).with_flags ≡ c.with_flags
  unfolding add_subjects
  add_subjects-with_flags [] c = refl
  add_subjects-with_flags (a ∷ args) c =
      add_subjects-with_flags args (record c { header = c.header ++ (codes "Subject", a) ∷ [] })

  -- A name that is none of the three that are known.
  abbrev pub IsUnknown : Text → Type 0
  IsUnknown name =
      (text_eq (map lower name) (codes "seen") ≡ false)
      × (text_eq (map lower name) (codes "answered") ≡ false)
      × (text_eq (map lower name) (codes "flagged") ≡ false)

  zero_not_meant :
      (c : Criteria) (p : Parts)
      → mem 0 c.with_flags ≡ true
      → mem 0 p.flags ≡ false
      → meant is_upper lower c p ≡ false
  zero_not_meant c p h k = ground (arith, no_zero_flag p.flags c.with_flags k h)

  unknown_parsed :
      (name : Text) (args : List Text)
      → IsUnknown name
      → parse_search is_upper lower (ok (with_named name ∷ [], args))
        ≡ ok (
            add_subjects is_upper lower args (record {
              header = [];
              body = [];
              text = [];
              with_flags = 0 ∷ [];
              without_flags = [];
            }))
  unfolding parse_search opts_loop opt_step opt_case get_parsed_flag
  unknown_parsed name args (a, b, c) = rw (a, b, c) refl

  unknown_ignored :
      (names : FlagNames) (name : Text) (args : List Text)
      → IsUnknown name
      → Search.parse_search lower names (ok (with_named name ∷ [], args))
        ≡ Search.parse_search lower names (ok ([], args))
  unfolding Search.parse_search Search.opts_loop Search.opt_step opt_case Search.get_parsed_flag
  unknown_ignored names name args (a, b, c) = rw (a, b, c) refl

  -- A flag -x whose name is not known makes a search in a maildir find no message, as long as no
  -- message has a flag of letter 0, whereas a search on an IMAP server is the same as without it.
  pub parse_search_unknown :
      (names : FlagNames) (name : Text) (args : List Text)
      → IsUnknown name
      → ((c : Criteria) × (parse_search is_upper lower (ok (with_named name ∷ [], args)) ≡ ok c)
          × ((p : Parts) → mem 0 p.flags ≡ false → meant is_upper lower c p ≡ false))
        × (Search.parse_search lower names (ok (with_named name ∷ [], args))
            ≡ Search.parse_search lower names (ok ([], args)))
  parse_search_unknown names name args h =
      let c : Criteria = record {
        header = [];
        body = [];
        text = [];
        with_flags = 0 ∷ [];
        without_flags = [];
      } in
      (
        (
          add_subjects is_upper lower args c,
          unknown_parsed name args h,
          (λ p k.
              zero_not_meant (add_subjects is_upper lower args c) p
                (ap (mem 0) (add_subjects-with_flags args c)) k),
        ),
        unknown_ignored names name args h,
      )
