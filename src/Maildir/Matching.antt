-- ===== src/Maildir/Matching.antt =====
-- worker/maildir/search.go: the parts that are read of a message are enough to decide a search.
use nyat.Common.{
  ok, ℕ, Bool, true, false, not, ◌&&◌, ◌||◌, List, [], ◌∷◌, Text, ◌==◌, if◌then◌else◌, ◌≡◌, refl,
  arith, ap, ◌∙◌, mem, select_if,
}
use nyat.Maildir.{
  Criteria, MsgParts, Message, Parts, get_required_parts, read_part, then_part, read_parts,
  no_header, some_of, contains_flag, headers_match, terms_match, flags_match, flags_missing,
  criteria_match, search_key, keep_found, contains_smart_case, search_loop, search,
}

-- A message of which every part can be read, and its parts.
abbrev pub readable : Parts → Message
readable p = record { flags = ok p.flags; header = ok p.header; body = ok p.body; all = ok p.all }

-- Whether a test holds for all elements.
abbrev pub all_of {ℓ} : {A : Type ℓ} → (A → Bool) → List A → Bool
all_of p [] = true
all_of p (x ∷ xs) = let rest = all_of p xs in p x && rest

module _ (is_upper : ℕ → Bool) (lower : ℕ → ℕ) where
  -- Whether a message is meant by the criteria: each text stands in its header, in the body or in the
  -- message, each flag that is asked for is there, and none of the others.
  abbrev pub meant : Criteria → Parts → Bool
  meant c p =
      all_of (λ h. contains_smart_case is_upper lower (p.header h.0) h.1) c.header
      && all_of (λ t. contains_smart_case is_upper lower p.body t) c.body
      && all_of (λ t. contains_smart_case is_upper lower p.all t) c.text
      && all_of (λ f. mem f p.flags) c.with_flags
      && all_of (λ f. not (mem f p.flags)) c.without_flags

  contains_flag-mem :
      (flags : List ℕ) (f : ℕ) (b : Bool) → contains_flag flags f b ≡ (b || mem f flags)
  unfolding contains_flag
  contains_flag-mem [] f b = ground arith
  contains_flag-mem (g ∷ flags) f b =
      ground (arith, contains_flag-mem flags f (if f == g then true else b))

  headers_match-all_of :
      (header : Text → Text) (hs : List (Text × Text))
      → headers_match is_upper lower header hs
        ≡ all_of (λ h. contains_smart_case is_upper lower (header h.0) h.1) hs
  unfolding headers_match
  headers_match-all_of header [] = refl
  headers_match-all_of header ((k, t) ∷ hs) = ground (arith, headers_match-all_of header hs)

  terms_match-all_of :
      (s : Text) (ts : List Text)
      → terms_match is_upper lower s ts ≡ all_of (λ t. contains_smart_case is_upper lower s t) ts
  unfolding terms_match
  terms_match-all_of s [] = refl
  terms_match-all_of s (t ∷ ts) = ground (arith, terms_match-all_of s ts)

  flags_match-all_of :
      (flags fs : List ℕ) → flags_match is_upper lower flags fs ≡ all_of (λ f. mem f flags) fs
  unfolding flags_match
  flags_match-all_of flags [] = refl
  flags_match-all_of flags (f ∷ fs) =
      ground (arith, flags_match-all_of flags fs, contains_flag-mem flags f false)

  flags_missing-all_of :
      (flags fs : List ℕ)
      → flags_missing is_upper lower flags fs ≡ all_of (λ f. not (mem f flags)) fs
  unfolding flags_missing
  flags_missing-all_of flags [] = refl
  flags_missing-all_of flags (f ∷ fs) =
      ground (arith, flags_missing-all_of flags fs, contains_flag-mem flags f false)

  read_part-ok : {A : Type 0} (b : Bool) (x y : A) → read_part b (ok x) y ≡ ok (if b then x else y)
  unfolding read_part
  read_part-ok true x y = refl
  read_part-ok false x y = refl

  -- The parts that are read where only some are needed.
  abbrev needed : MsgParts → Parts → Parts
  needed n p = record {
    flags = if n.flags then p.flags else [];
    header = if n.header then p.header else no_header;
    body = if n.body then p.body else [];
    all = if n.all then p.all else [];
  }

  read_parts-needed : (n : MsgParts) (p : Parts) → read_parts n (readable p) ≡ ok (needed n p)
  unfolding read_parts then_part
  read_parts-needed n p =
      rw
        (
          read_part-ok n.flags p.flags [],
          read_part-ok n.header p.header no_header,
          some_of,
          read_part-ok n.body p.body [],
          read_part-ok n.all p.all [],
        )
        refl

  headers_needed :
      (header : Text → Text) (hs : List (Text × Text))
      → headers_match is_upper lower (if some_of hs then header else no_header) hs
        ≡ all_of (λ h. contains_smart_case is_upper lower (header h.0) h.1) hs
  unfolding headers_match
  headers_needed header [] = refl
  headers_needed header (h ∷ hs) = headers_match-all_of header (h ∷ hs)

  terms_needed :
      (s : Text) (ts : List Text)
      → terms_match is_upper lower (if some_of ts then s else []) ts
        ≡ all_of (λ t. contains_smart_case is_upper lower s t) ts
  unfolding terms_match
  terms_needed s [] = refl
  terms_needed s (t ∷ ts) = terms_match-all_of s (t ∷ ts)

  flags_needed :
      (flags ws vs : List ℕ)
      → flags_match is_upper lower (if some_of ws || some_of vs then flags else []) ws
        ≡ all_of (λ f. mem f flags) ws
  unfolding flags_match
  flags_needed flags [] vs = refl
  flags_needed flags (f ∷ ws) vs = flags_match-all_of flags (f ∷ ws)

  missing_needed :
      (flags ws vs : List ℕ)
      → flags_missing is_upper lower (if some_of ws || some_of vs then flags else []) vs
        ≡ all_of (λ f. not (mem f flags)) vs
  unfolding flags_missing
  missing_needed flags ws [] = refl
  missing_needed flags [] (f ∷ vs) = flags_missing-all_of flags (f ∷ vs)
  missing_needed flags (w ∷ ws) (f ∷ vs) = flags_missing-all_of flags (f ∷ vs)

  criteria_match-meant :
      (c : Criteria) (p : Parts)
      → criteria_match is_upper lower c (needed (get_required_parts c) p) ≡ meant c p
  unfolding criteria_match get_required_parts
  criteria_match-meant c p =
      rw
        (
          headers_needed p.header c.header,
          terms_needed p.body c.body,
          terms_needed p.all c.text,
          flags_needed p.flags c.with_flags c.without_flags,
          missing_needed p.flags c.with_flags c.without_flags,
        )
        (ground arith)

  search_key-meant :
      (c : Criteria) (p : Parts)
      → search_key is_upper lower (ok (readable p)) c (get_required_parts c) ≡ ok (meant c p)
  unfolding search_key then_part
  search_key-meant c p =
      ap (λ r. then_part r (λ q. ok (criteria_match is_upper lower c q)))
        (read_parts-needed (get_required_parts c) p)
      ∙ ap ok (criteria_match-meant c p)

  search_loop-meant :
      (c : Criteria) (parts : ℕ → Parts) (keys : List ℕ)
      → search_loop is_upper lower (λ k. ok (readable (parts k))) c (get_required_parts c) keys
        ≡ select_if (λ k. meant c (parts k)) keys
  unfolding search_loop keep_found
  search_loop-meant c parts [] = refl
  search_loop-meant c parts (k ∷ keys) =
      let rest =
        search_loop is_upper lower (λ j. ok (readable (parts j))) c (get_required_parts c) keys in
      ap (λ r. keep_found is_upper lower r k rest) (search_key-meant c (parts k))
      ∙ ap (λ ks. if meant c (parts k) then k ∷ ks else ks) (search_loop-meant c parts keys)

  -- If every message of the directory can be read, a search finds the uids of those that are meant by
  -- the criteria, in their order, although only the parts of a message are read that the criteria
  -- need.
  pub search-meant :
      (c : Criteria) (parts : ℕ → Parts) (keys : List ℕ)
      → search is_upper lower (λ k. ok (readable (parts k))) c (ok keys)
        ≡ ok (select_if (λ k. meant c (parts k)) keys)
  unfolding search
  search-meant c parts keys = ap ok (search_loop-meant c parts keys)
