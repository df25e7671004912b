-- ===== src/Imap/Gathering.antt =====
-- worker/imap/search.go: the criteria of `parseSearch`, each gathered from the options by itself.
use mathlib.Core.List.{append_assoc, append-nil}
use nyat.Common.{
  ok, ℕ, Bool, true, false, List, [], ◌∷◌, ◌++◌, Option, none, some, Text, codes, if◌then◌else◌,
  ◌||◌, ◌==◌, map, text_eq, ◌≡◌, refl, arith, ap, sym, ◌∙◌,
}
use nyat.Imap.Search.{
  SearchCriteria, Opt, FlagNames, new_search_criteria, OptCase, read_opt, unread_opt, with_opt,
  without_opt, from_opt, to_opt, cc_opt, body_opt, text_opt, opt_case, Search, get_parsed_flag,
  opt_step, opts_loop, add_subjects, parse_search,
}

abbrev pub of_option : Option Text → List Text
of_option none = []
of_option (some f) = f ∷ []

abbrev pub is_body_case : OptCase → Bool
is_body_case body_opt = true
is_body_case _ = false

abbrev pub is_text_case : OptCase → Bool
is_text_case text_opt = true
is_text_case _ = false

abbrev pub any_case : (OptCase → Bool) → List Opt → Bool
any_case p [] = false
any_case p (o ∷ opts) = let rest = any_case p opts in p (opt_case o.option) || rest

-- What an option adds to the headers that are asked for.
abbrev pub header_case : OptCase → Text → List (Text × Text)
header_case from_opt v = (codes "From", v) ∷ []
header_case to_opt v = (codes "To", v) ∷ []
header_case cc_opt v = (codes "Cc", v) ∷ []
header_case _ v = []

abbrev pub subjects : List Text → List (Text × Text)
subjects [] = []
subjects (a ∷ args) = (codes "Subject", a) ∷ subjects args

abbrev pub gather_cases {ℓ} : {A : Type ℓ} → (OptCase → Text → List A) → List Opt → List A
gather_cases g [] = []
gather_cases g (o ∷ opts) = g (opt_case o.option) o.value ++ gather_cases g opts

module _ (lower : ℕ → ℕ) (names : FlagNames) where
  -- What an option adds to the flags that a message has to have.
  abbrev pub with_case : OptCase → Text → List Text
  with_case read_opt v = names.seen ∷ []
  with_case with_opt v = of_option (get_parsed_flag lower names v)
  with_case _ v = []

  -- What an option adds to the flags that a message must not have.
  abbrev pub without_case : OptCase → Text → List Text
  without_case unread_opt v = names.seen ∷ []
  without_case without_opt v = of_option (get_parsed_flag lower names v)
  without_case _ v = []

  -- What each option adds, the loop over options adds up.
  opts_loop-gather_cases :
      {A : Type 0} (p : Search → List A) (g : OptCase → Text → List A)
      → ((k : OptCase) (v : Text) (s : Search) → p (opt_step lower names k v s) ≡ p s ++ g k v)
      → (opts : List Opt) (s : Search)
      → p (opts_loop lower names opts s) ≡ p s ++ gather_cases g opts
  unfolding opts_loop
  opts_loop-gather_cases p g h [] s = sym (append-nil (p s))
  opts_loop-gather_cases p g h (o ∷ opts) s =
      opts_loop-gather_cases p g h opts (opt_step lower names (opt_case o.option) o.value s)
      ∙ ap (λ z. z ++ gather_cases g opts) (h (opt_case o.option) o.value s)
      ∙ append_assoc (p s) (g (opt_case o.option) o.value) (gather_cases g opts)

  opts_loop-any :
      (p : Search → Bool) (q : OptCase → Bool)
      → ((k : OptCase) (v : Text) (s : Search) → p (opt_step lower names k v s) ≡ (p s || q k))
      → (opts : List Opt) (s : Search) → p (opts_loop lower names opts s) ≡ (p s || any_case q opts)
  unfolding opts_loop
  opts_loop-any p q h [] s = ground arith
  opts_loop-any p q h (o ∷ opts) s =
      let t = opt_step lower names (opt_case o.option) o.value s in
      ground (arith, opts_loop-any p q h opts t, h (opt_case o.option) o.value s)

  opt_step-adds :
      (k : OptCase) (v : Text) (s : Search)
      → ((opt_step lower names k v s).criteria.with_flags ≡ s.criteria.with_flags ++ with_case k v)
        × ((opt_step lower names k v s).criteria.without_flags
            ≡ s.criteria.without_flags ++ without_case k v)
        × ((opt_step lower names k v s).criteria.header ≡ s.criteria.header ++ header_case k v)
        × ((opt_step lower names k v s).in_body ≡ (s.in_body || is_body_case k))
        × ((opt_step lower names k v s).in_text ≡ (s.in_text || is_text_case k))
        × ((opt_step lower names k v s).criteria.body ≡ s.criteria.body)
        × ((opt_step lower names k v s).criteria.text ≡ s.criteria.text)
  unfolding opt_step
  opt_step-adds k v s = (
    ground (arith, append-nil s.criteria.with_flags),
    ground (arith, append-nil s.criteria.without_flags),
    ground (arith, append-nil s.criteria.header),
    ground arith,
    ground arith,
    ground arith,
    ground arith,
  )

  opts_loop-kept :
      (opts : List Opt) (s : Search)
      → ((opts_loop lower names opts s).criteria.body ≡ s.criteria.body)
        × ((opts_loop lower names opts s).criteria.text ≡ s.criteria.text)
  unfolding opts_loop
  opts_loop-kept [] s = (refl, refl)
  opts_loop-kept (o ∷ opts) s =
      let t = opt_step lower names (opt_case o.option) o.value s in
      let (e, f) = opts_loop-kept opts t in
      let a = opt_step-adds (opt_case o.option) o.value s in (e ∙ a.5, f ∙ a.6)

  add_subjects-eq :
      (args : List Text) (c : SearchCriteria)
      → add_subjects lower names args c ≡ record c { header = c.header ++ subjects args }
  unfolding add_subjects
  add_subjects-eq [] c = ap (λ z. record c { header = z }) (sym (append-nil c.header))
  add_subjects-eq (a ∷ args) c =
      add_subjects-eq args (record c { header = c.header ++ (codes "Subject", a) ∷ [] })
      ∙ ap (λ z. record c { header = z })
          (append_assoc c.header ((codes "Subject", a) ∷ []) (subjects args))

  -- The loop from the start.
  opts_loop-eq :
      (opts : List Opt)
      → opts_loop lower names opts
          (record { criteria = new_search_criteria; in_body = false; in_text = false })
        ≡ record {
          criteria = record {
            with_flags = gather_cases with_case opts;
            without_flags = gather_cases without_case opts;
            header = gather_cases header_case opts;
            body = [];
            text = [];
          };
          in_body = any_case is_body_case opts;
          in_text = any_case is_text_case opts;
        }
  opts_loop-eq opts =
      let s : Search = record {
        criteria = new_search_criteria;
        in_body = false;
        in_text = false;
      } in
      let a =
        opts_loop-gather_cases (λ z. z.criteria.with_flags) with_case
          (λ k v z. (opt_step-adds k v z).0) opts s in
      let b =
        opts_loop-gather_cases (λ z. z.criteria.without_flags) without_case
          (λ k v z. (opt_step-adds k v z).1) opts s in
      let c =
        opts_loop-gather_cases (λ z. z.criteria.header) header_case
          (λ k v z. (opt_step-adds k v z).2) opts s in
      let d =
        opts_loop-any (λ z. z.in_body) is_body_case (λ k v z. (opt_step-adds k v z).3) opts s in
      let e =
        opts_loop-any (λ z. z.in_text) is_text_case (λ k v z. (opt_step-adds k v z).4) opts s in
      let (f, g) = opts_loop-kept opts s in ground (arith, a, b, c, d, e, f, g)

  abbrev criteria_of_cases : List Opt → List Text → SearchCriteria
  criteria_of_cases opts args = record {
    with_flags = gather_cases with_case opts;
    without_flags = gather_cases without_case opts;
    header =
        gather_cases header_case opts
        ++ (if any_case is_text_case opts || any_case is_body_case opts then [] else subjects args);
    body =
        if any_case is_text_case opts then [] else if any_case is_body_case opts then args else [];
    text = if any_case is_text_case opts then args else [];
  }

  parse_search_cases :
      (opts : List Opt) (args : List Text)
      → parse_search lower names (ok (opts, args)) ≡ ok (criteria_of_cases opts args)
  unfolding parse_search
  parse_search_cases opts args = rw (opts_loop-eq opts) (
      ground (
        arith,
        add_subjects-eq args (record {
          with_flags = gather_cases with_case opts;
          without_flags = gather_cases without_case opts;
          header = gather_cases header_case opts;
          body = [];
          text = [];
        }),
        append-nil (gather_cases header_case opts),
      ))

-- What the options of a search add, by their letters.
abbrev pub header_of : ℕ → Text → List (Text × Text)
header_of c v =
    if c == b'f'
    then (codes "From", v) ∷ []
    else if c == b't'
    then (codes "To", v) ∷ []
    else if c == b'c'
    then (codes "Cc", v) ∷ []
    else []

abbrev pub any_opt : ℕ → List Opt → Bool
any_opt c [] = false
any_opt c (o ∷ opts) = let rest = any_opt c opts in (o.option == c) || rest

abbrev pub gather {ℓ} : {A : Type ℓ} → (ℕ → Text → List A) → List Opt → List A
gather g [] = []
gather g (o ∷ opts) = g o.option o.value ++ gather g opts

gather-gather_cases {ℓ} :
    {A : Type ℓ} (g : ℕ → Text → List A) (k : OptCase → Text → List A)
    → ((c : ℕ) (v : Text) → k (opt_case c) v ≡ g c v)
    → (opts : List Opt) → gather_cases k opts ≡ gather g opts
gather-gather_cases g k h [] = refl
gather-gather_cases g k h (o ∷ opts) =
    ap (λ z. z ++ gather_cases k opts) (h o.option o.value)
    ∙ ap (λ z. g o.option o.value ++ z) (gather-gather_cases g k h opts)

any_opt-any_case :
    (a : ℕ) (p : OptCase → Bool)
    → ((c : ℕ) → p (opt_case c) ≡ (c == a))
    → (opts : List Opt) → any_case p opts ≡ any_opt a opts
any_opt-any_case a p h [] = refl
any_opt-any_case a p h (o ∷ opts) =
    ap (λ z. z || any_case p opts) (h o.option)
    ∙ ap (λ z. (o.option == a) || z) (any_opt-any_case a p h opts)

module _ (lower : ℕ → ℕ) (names : FlagNames) where
  -- The flag of a name, whose letters may be of either case, if it has one.
  abbrev pub named_flag : Text → List Text
  named_flag v =
      if text_eq (map lower v) (codes "seen")
      then names.seen ∷ []
      else if text_eq (map lower v) (codes "flagged")
      then names.flagged ∷ []
      else if text_eq (map lower v) (codes "answered")
      then names.answered ∷ []
      else []

  abbrev pub with_of : ℕ → Text → List Text
  with_of c v = if c == b'r' then names.seen ∷ [] else if c == b'x' then named_flag v else []

  abbrev pub without_of : ℕ → Text → List Text
  without_of c v = if c == b'u' then names.seen ∷ [] else if c == b'X' then named_flag v else []

  -- What a search looks for.
  abbrev pub criteria_of : List Opt → List Text → SearchCriteria
  criteria_of opts args = record {
    with_flags = gather with_of opts;
    without_flags = gather without_of opts;
    header =
        gather header_of opts
        ++ (if any_opt b'a' opts || any_opt b'b' opts then [] else subjects args);
    body = if any_opt b'a' opts then [] else if any_opt b'b' opts then args else [];
    text = if any_opt b'a' opts then args else [];
  }

  named_flag-get_parsed_flag : (v : Text) → of_option (get_parsed_flag lower names v) ≡ named_flag v
  unfolding get_parsed_flag
  named_flag-get_parsed_flag v = ground arith

  with_of-eq : (c : ℕ) (v : Text) → with_case lower names (opt_case c) v ≡ with_of c v
  unfolding opt_case
  with_of-eq c v = ground (arith, named_flag-get_parsed_flag v)

  without_of-eq : (c : ℕ) (v : Text) → without_case lower names (opt_case c) v ≡ without_of c v
  unfolding opt_case
  without_of-eq c v = ground (arith, named_flag-get_parsed_flag v)

  header_of-eq : (c : ℕ) (v : Text) → header_case (opt_case c) v ≡ header_of c v
  unfolding opt_case
  header_of-eq c v = ground arith

  is_body-eq : (c : ℕ) → is_body_case (opt_case c) ≡ (c == b'b')
  unfolding opt_case
  is_body-eq c = ground arith

  is_text-eq : (c : ℕ) → is_text_case (opt_case c) ≡ (c == b'a')
  unfolding opt_case
  is_text-eq c = ground arith

  -- Without an error of getopt the criteria ask for the flags, the missing flags and the headers that
  -- the options name, in their order, where -r and -u stand for the seen flag and a flag of -x or -X
  -- that has no name is left out. The other arguments are looked for in the whole message with -a,
  -- else in its body with -b, and else in the subject, each by itself.
  pub parse_search-criteria_of :
      (opts : List Opt) (args : List Text)
      → parse_search lower names (ok (opts, args)) ≡ ok (criteria_of opts args)
  parse_search-criteria_of opts args =
      let a = gather-gather_cases with_of (with_case lower names) with_of-eq opts in
      let b = gather-gather_cases without_of (without_case lower names) without_of-eq opts in
      let c = gather-gather_cases header_of header_case header_of-eq opts in
      let d = any_opt-any_case b'b' is_body_case is_body-eq opts in
      let e = any_opt-any_case b'a' is_text_case is_text-eq opts in
      parse_search_cases lower names opts args ∙ (λ i. ok (record {
        with_flags = a i;
        without_flags = b i;
        header = c i ++ (if e i || d i then [] else subjects args);
        body = if e i then [] else if d i then args else [];
        text = if e i then args else [];
      }))
