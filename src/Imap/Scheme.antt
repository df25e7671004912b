-- ===== src/Imap/Scheme.antt =====
-- worker/imap/worker.go: the suffixes of the scheme in the action Configure.
use nyat.Common.{
  ℕ, suc, ◌-◌, ◌≤◌, Bool, true, false, List, [], ◌∷◌, ◌++◌, some, Text, codes, length,
  length-append, take, drop, text_eq_iff, if◌then◌else◌, ◌≡◌, refl, arith, ap, ◌∙◌,
}
use nyat.Imap.Connect.{
  Url, Config, has_suffix, trim_suffix, take_insecure, take_oauth, configure, oauth_of,
}

drop_append :
    (x y : Text) (n : ℕ)
    → n ≤ length y
    → drop (length (x ++ y) - n) (x ++ y) ≡ drop (length y - n) y
drop_append [] y n h = refl
drop_append (c ∷ x) y n h =
    let e : length (c ∷ x ++ y) - n ≡ suc (length (x ++ y) - n) =
      omega (arith, h, length-append x y) in
    ap (λ k. drop k (c ∷ x ++ y)) e ∙ drop_append x y n h

take_append : (x y : Text) → take (length (x ++ y) - length y) (x ++ y) ≡ x
take_append [] y = let e : length y - length y ≡ 0 = omega arith in ap (λ k. take k y) e
take_append (c ∷ x) y =
    let e : length (c ∷ x ++ y) - length y ≡ suc (length (x ++ y) - length y) =
      omega (arith, length-append x y) in
    ap (λ k. take k (c ∷ x ++ y)) e ∙ ap (◌∷◌ c) (take_append x y)

-- Whether a text has a suffix is known from an end of it that is as long.
has_suffix-append : (x y z : Text) → length z ≤ length y → has_suffix (x ++ y) z ≡ has_suffix y z
unfolding has_suffix
has_suffix-append x y z h = rw (drop_append x y (length z) h) (ground (arith, h, length-append x y))

has_suffix_refl : (y : Text) → has_suffix y y ≡ true
unfolding has_suffix
has_suffix_refl y =
    let e : length y - length y ≡ 0 = omega arith in rw e (ground (arith, text_eq_iff y y))

trim_suffix-append : (x y : Text) → trim_suffix (x ++ y) y ≡ x
unfolding trim_suffix
trim_suffix-append x y =
    rw (has_suffix-append x y y (omega arith), has_suffix_refl y) (take_append x y)

abbrev plus_insecure : Text
plus_insecure = codes "+insecure"

abbrev plus_oauth : Text
plus_oauth = codes "+oauthbearer"

then_branch : {A : Type 0} (b : Bool) (x y : A) → b ≡ true → (if b then x else y) ≡ x
then_branch true x y h = refl
then_branch false x y h = cc

else_branch : {A : Type 0} (b : Bool) (x y : A) → b ≡ false → (if b then x else y) ≡ y
else_branch true x y h = cc
else_branch false x y h = refl

has_own : (q s y : Text) → q ≡ s ++ y → has_suffix q y ≡ true
has_own q s y e =
    ap (λ z. has_suffix z y) e ∙ has_suffix-append s y y (omega arith) ∙ has_suffix_refl y

take_insecure-own :
    (d : Config) (s : Text)
    → d.scheme ≡ s ++ plus_insecure
    → take_insecure d ≡ record d { scheme = s; insecure = true }
unfolding take_insecure
take_insecure-own d s e =
    then_branch (has_suffix d.scheme plus_insecure)
      (record d { scheme = trim_suffix d.scheme plus_insecure; insecure = true }) d
      (has_own d.scheme s plus_insecure e)
    ∙ ap (λ z. record d { scheme = z; insecure = true })
        (ap (λ z. trim_suffix z plus_insecure) e ∙ trim_suffix-append s plus_insecure)

not_insecure : has_suffix plus_oauth plus_insecure ≡ false
unfolding has_suffix
not_insecure = refl

take_insecure-other : (d : Config) (s : Text) → d.scheme ≡ s ++ plus_oauth → take_insecure d ≡ d
unfolding take_insecure
take_insecure-other d s e =
    else_branch (has_suffix d.scheme plus_insecure)
      (record d { scheme = trim_suffix d.scheme plus_insecure; insecure = true }) d
      (ap (λ z. has_suffix z plus_insecure) e
        ∙ has_suffix-append s plus_oauth plus_insecure (omega arith)
        ∙ not_insecure)

take_oauth-own :
    (u : Url) (d : Config) (s : Text)
    → d.scheme ≡ s ++ plus_oauth
    → take_oauth u d ≡ record d { scheme = s; oauth_enabled = true; oauth2 = some (oauth_of u) }
unfolding take_oauth
take_oauth-own u d s e =
    then_branch (has_suffix d.scheme plus_oauth)
      (record d {
        scheme = trim_suffix d.scheme plus_oauth;
        oauth_enabled = true;
        oauth2 = some (oauth_of u);
      })
      d (has_own d.scheme s plus_oauth e)
    ∙ ap (λ z. record d { scheme = z; oauth_enabled = true; oauth2 = some (oauth_of u) })
        (ap (λ z. trim_suffix z plus_oauth) e ∙ trim_suffix-append s plus_oauth)

-- Of a URL whose scheme ends in +oauthbearer and then +insecure, both suffixes are taken off and
-- mark the configuration. In the other order the scheme keeps +insecure, and the configuration is
-- not marked by it.
pub configure-scheme :
    (u v : Url) (s : Text) (folders : List Text) (c : Config)
    → u.scheme ≡ (s ++ codes "+oauthbearer") ++ codes "+insecure"
    → v.scheme ≡ (s ++ codes "+insecure") ++ codes "+oauthbearer"
    → ((configure u folders c).scheme ≡ s)
      × ((configure u folders c).insecure ≡ true)
      × ((configure u folders c).oauth_enabled ≡ true)
      × ((configure v folders c).scheme ≡ s ++ codes "+insecure")
      × ((configure v folders c).insecure ≡ c.insecure)
      × ((configure v folders c).oauth_enabled ≡ true)
unfolding configure
configure-scheme u v s folders c e f =
    let d = record c { scheme = u.scheme } in
    let g =
      ap (take_oauth u) (take_insecure-own d (s ++ plus_oauth) e)
      ∙ take_oauth-own u (record d { scheme = s ++ plus_oauth; insecure = true }) s refl in
    let d' = record c { scheme = v.scheme } in
    let h =
      ap (take_oauth v) (take_insecure-other d' (s ++ plus_insecure) f)
      ∙ take_oauth-own v d' (s ++ plus_insecure) f in
    (
      ap (λ z. z.scheme) g,
      ap (λ z. z.insecure) g,
      ap (λ z. z.oauth_enabled) g,
      ap (λ z. z.scheme) h,
      ap (λ z. z.insecure) h,
      ap (λ z. z.oauth_enabled) h,
    )
