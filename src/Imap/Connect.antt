-- ===== src/Imap/Connect.antt =====
-- worker/imap/worker.go and lib/oauthbearer.go: the configuration of the worker, and the steps of the
-- connection. What net/url parses and what the calls of go-imap answer are arguments.
use nyat.Common.{
  Result, err, ok, ◌-◌, Bool, true, false, ◌&&◌, ◌||◌, List, [], ◌∷◌, ◌++◌, Option, none, some,
  Text, codes, length, take, drop, leb, text_eq, if◌then◌else◌, ◌≡◌, refl, sym, subst, Bool-cases,
  inl, inr, ◌==◌, not, is_some,
}

-- A URL: its scheme, host, user with a password if it has one, and the parameters of OAuth2.
pub record Url : Type 0 where
  pub scheme : Text
  pub host : Text
  pub user : Option (Text × Text)
  pub token_endpoint : Text
  pub client_id : Text
  pub client_secret : Text
  pub scope : Text

-- `oauth2.Config`
pub record OauthConfig : Type 0 where
  pub client_id : Text
  pub client_secret : Text
  pub scopes : List Text
  pub token_url : Text

pub record Config : Type 0 where
  pub scheme : Text
  pub insecure : Bool
  pub addr : Text
  pub user : Option (Text × Text)
  pub folders : List Text
  pub oauth_enabled : Bool
  pub oauth2 : Option OauthConfig

abbrev pub no_config : Config
no_config = record {
  scheme = [];
  insecure = false;
  addr = [];
  user = none;
  folders = [];
  oauth_enabled = false;
  oauth2 = none;
}

-- `strings.HasSuffix(s, suffix)`
unfoldable pub has_suffix : Text → Text → Bool
has_suffix s suffix =
    leb (length suffix) (length s) && text_eq (drop (length s - length suffix) s) suffix

-- `strings.TrimSuffix(s, suffix)`
unfoldable pub trim_suffix : Text → Text → Text
unfolding has_suffix
trim_suffix s suffix = if has_suffix s suffix then take (length s - length suffix) s else s

unfoldable pub has_colon : Text → Bool
has_colon [] = false
has_colon (c ∷ s) = let rest = has_colon s in (c == 58) || rest

abbrev pub empty_oauth : OauthConfig
empty_oauth = record { client_id = []; client_secret = []; scopes = []; token_url = [] }

unfoldable pub oauth_of : Url → OauthConfig
oauth_of u = if text_eq u.token_endpoint [] then empty_oauth else record {
  client_id = u.client_id;
  client_secret = u.client_secret;
  scopes = u.scope ∷ [];
  token_url = u.token_endpoint;
}

-- The suffixes of a scheme: a suffix is taken off, and marks the configuration.
unfoldable pub take_insecure : Config → Config
unfolding has_suffix trim_suffix
take_insecure c =
    if has_suffix c.scheme (codes "+insecure")
    then record c { scheme = trim_suffix c.scheme (codes "+insecure"); insecure = true }
    else c

unfoldable pub take_oauth : Url → Config → Config
unfolding has_suffix trim_suffix oauth_of
take_oauth u c =
    if has_suffix c.scheme (codes "+oauthbearer")
    then record c {
      scheme = trim_suffix c.scheme (codes "+oauthbearer");
      oauth_enabled = true;
      oauth2 = some (oauth_of u);
    }
    else c

-- The action Configure, with the URL of the source and the folders.
unfoldable pub configure : Url → List Text → Config → Config
unfolding take_insecure take_oauth has_colon
configure u folders c =
    let d = take_oauth u (take_insecure (record c { scheme = u.scheme })) in
    record d {
      addr = if has_colon u.host then u.host else u.host ++ codes ":" ++ d.scheme;
      user = u.user;
      folders = folders;
    }

-- The calls of a connection.
pub data Call : Type 0 where
  dial : Text → Call
  start_tls : Call
  dial_tls : Text → Call
  support_auth : Call
  exchange_token : Text → Call
  authenticate : (username token : Text) → Call
  login : (username password : Text) → Call
  select_inbox : Call

-- What the calls answer, where one that fails does so with an error.
pub record Answers : Type 0 where
  pub dialled : Option Text
  pub started_tls : Option Text
  pub dialled_tls : Option Text
  pub supports_auth : Bool
  pub token : Result Text
  pub authenticated : Option Text
  pub logged_in : Option Text
  pub inbox_selected : Option Text

-- The calls that were made, and the error that ended them.
abbrev pub Run : Type 0
Run = List Call × Option Text

-- A call, and if it succeeds what follows.
unfoldable pub call : Call → Option Text → Run → Run
call c (some e) rest = (c ∷ [], some e)
call c none (calls, e) = (c ∷ calls, e)

module _ (a : Answers) where
  -- `Authenticate`, then the rest. The password is exchanged for a token if there is a URL for it.
  unfoldable pub oauth_login : Text → Text → Text → Run → Run
  unfolding call
  oauth_login token_url username password rest =
      if a.supports_auth
      then (if text_eq token_url []
          then call support_auth none (call (authenticate username password) a.authenticated rest)
          else elim a.token [
            | err e ↦ call support_auth none (exchange_token password ∷ [], some e)
            | ok t ↦ call support_auth none (
                call (exchange_token password) none
                  (call (authenticate username t) a.authenticated rest))
          ])
      else (support_auth ∷ [], some (codes "OAuthBearer not supported"))

  -- The steps of Connect behind the dialling.
  unfoldable pub log_in : Config → Run
  unfolding call oauth_login
  log_in c =
      let rest : Run = call select_inbox a.inbox_selected ([], none) in
      elim c.user [
        | none ↦ rest
        | some user ↦
            if c.oauth_enabled
            then oauth_login (elim c.oauth2 [ none ↦ [] | some o ↦ o.token_url ]) user.0 user.1 rest
            else call (login user.0 user.1) a.logged_in rest
      ]

  -- The action Connect.
  unfoldable pub connect : Config → Run
  unfolding call log_in
  connect c =
      let rest = log_in c in
      if text_eq c.scheme (codes "imap")
      then call (dial c.addr) a.dialled
          (if c.insecure then rest else call start_tls a.started_tls rest)
      else if text_eq c.scheme (codes "imaps")
      then call (dial_tls c.addr) a.dialled_tls rest
      else ([], some (codes "Unknown IMAP scheme " ++ c.scheme))

-- Whether a call carries a password or a token over the connection.
abbrev pub is_secret : Call → Bool
is_secret (authenticate username token) = true
is_secret (login username password) = true
is_secret _ = false

-- Whether a call begins the encryption, which it does if it succeeds.
abbrev pub encrypts : Answers → Call → Bool
encrypts a start_tls = not (is_some a.started_tls)
encrypts a (dial_tls addr) = not (is_some a.dialled_tls)
encrypts a _ = false

-- No secret is sent before a call has begun the encryption.
abbrev pub Secure : Answers → List Call → Type 0
Secure a [] = Unit
Secure a (c ∷ calls) = if encrypts a c then Unit else (is_secret c ≡ false) × Secure a calls

module _ (a : Answers) where
  alone : (c : Call) (b : Bool) → encrypts a c ≡ b → is_secret c ≡ false → Secure a (c ∷ [])
  alone c true e h = rw e tt
  alone c false e h = rw e (h, tt)

  call-tls :
      (c : Call) (e : Option Text) (rest : Run)
      → is_secret c ≡ false
      → (e ≡ none → encrypts a c ≡ true)
      → Secure a (call c e rest).0
  unfolding call
  call-tls c (some e) rest n h = alone c (encrypts a c) refl n
  call-tls c none rest n h = rw (h refl) tt

  call-dial :
      (addr : Text) (e : Option Text) (rest : Run)
      → Secure a rest.0
      → Secure a (call (dial addr) e rest).0
  unfolding call
  call-dial addr (some e) rest h = (refl, tt)
  call-dial addr none rest h = (refl, h)

  with_start_tls : (rest : Run) → Secure a (call start_tls a.started_tls rest).0
  with_start_tls rest = call-tls start_tls a.started_tls rest refl (λ e. rw e refl)

  -- A connection that the configuration does not call insecure sends neither a password nor a token
  -- before a call that begins the encryption has succeeded, whatever the calls answer.
  pub connect-Secure : (c : Config) → c.insecure ≡ false → Secure a (connect a c).0
  unfolding connect
  connect-Secure c h = elim (Bool-cases (text_eq c.scheme (codes "imap"))) [
    | inl e ↦ rw e (
        call-dial c.addr a.dialled
          (if c.insecure then log_in a c else call start_tls a.started_tls (log_in a c))
          (subst
            (λ b. Secure a (if b then log_in a c else call start_tls a.started_tls (log_in a c)).0)
            (sym h) (with_start_tls (log_in a c))))
    | inr e ↦ rw e (elim (Bool-cases (text_eq c.scheme (codes "imaps"))) [
      | inl f ↦ rw f (call-tls (dial_tls c.addr) a.dialled_tls (log_in a c) refl (λ z. rw z refl))
      | inr f ↦ rw f tt
    ])
  ]
