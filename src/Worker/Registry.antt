-- ===== src/Worker/Registry.antt =====
-- worker/worker.go and worker/handlers/register.go: the factories of backends by the scheme of a source.
-- net/url is a parameter; a factory makes a backend for a worker, or fails.
use nyat.Common.{
  true, false, [], ◌∷◌, ◌++◌, Option, none, some, Text, codes, Result, ok, err, text_eq,
  text_eq_iff, ◌==◌, if◌then◌else◌, ◌≡◌, refl, mem, arith, ap, ◌∙◌,
}
use nyat.Common.Dict.{Dict, lookup, insert, lookup-insert, text_key_eq}
use nyat.Worker.{Worker, new_worker}

abbrev pub FactoryFunc : Type 0 → Type 0
FactoryFunc B = Worker → Result B

-- `RegisterWorkerFactory`
unfoldable pub register_worker_factory :
    {B : Type 0} → Text → FactoryFunc B → Dict Text (FactoryFunc B) → Dict Text (FactoryFunc B)
register_worker_factory scheme factory factories = insert scheme factory factories

-- `GetHandlerForScheme`
unfoldable pub get_handler_for_scheme :
    {B : Type 0} → Text → Worker → Dict Text (FactoryFunc B) → Result B
get_handler_for_scheme scheme w factories = elim (lookup scheme factories) [
  | none ↦ err (codes "Unknown backend " ++ scheme)
  | some factory ↦ factory w
]

-- A scheme up to its first plus sign.
unfoldable pub before_plus : Text → Text
before_plus [] = []
before_plus (c ∷ s) = let rest = before_plus s in if c == 43 then [] else c ∷ rest

-- The new worker, with the backend that has been made for it.
unfoldable pub with_worker : {B : Type 0} → Result B → Result (Worker × B)
unfolding new_worker
with_worker (err e) = err e
with_worker (ok backend) = ok (new_worker, backend)

-- `NewWorker`, with what is read of the scheme of a source.
unfoldable pub worker_for :
    {B : Type 0} (scheme_of : Text → Result Text)
    → Text
    → Dict Text (FactoryFunc B)
    → Result (Worker × B)
unfolding before_plus get_handler_for_scheme new_worker with_worker
worker_for scheme_of source factories = elim (scheme_of source) [
  | err e ↦ err e
  | ok scheme ↦ with_worker (get_handler_for_scheme (before_plus scheme) new_worker factories)
]

-- A scheme with nothing behind it, or with a plus sign and more.
abbrev pub full : Text → Option Text → Text
full scheme none = scheme
full scheme (some rest) = scheme ++ 43 ∷ rest

before_plus-full :
    (scheme : Text) (rest : Option Text)
    → mem 43 scheme ≡ false
    → before_plus (full scheme rest) ≡ scheme
unfolding before_plus
before_plus-full [] none h = refl
before_plus-full [] (some rest) h = refl
before_plus-full (c ∷ scheme) none h = ground (arith, h, before_plus-full scheme none)
before_plus-full (c ∷ scheme) (some rest) h = ground (arith, h, before_plus-full scheme (some rest))

lookup-registered :
    {V : Type 0} (k : Text) (v : V) (m : Dict Text V) → lookup k (insert k v m) ≡ some v
lookup-registered k v m =
    let e : text_eq k k ≡ true = (text_eq_iff k k).1 refl in
    lookup-insert k k v m ∙ ap (λ b. if b then some v else lookup k m) e

handler-registered :
    {B : Type 0} (scheme : Text) (w : Worker) (factory : FactoryFunc B)
    (factories : Dict Text (FactoryFunc B))
    → get_handler_for_scheme scheme w (insert scheme factory factories) ≡ factory w
unfolding get_handler_for_scheme
handler-registered scheme w factory factories =
    ap (λ o. elim o [ none ↦ err (codes "Unknown backend " ++ scheme) | some f ↦ f w ])
      (lookup-registered scheme factory factories)

-- After a factory has been registered for a scheme that has no plus sign, a source whose scheme is that,
-- whether or not a plus sign and more are behind it, gives a new worker with the backend that the
-- factory makes for it, or the factory's error, whatever was registered before.
pub worker_for-register_worker_factory :
    {B : Type 0} (scheme_of : Text → Result Text) (source scheme : Text) (rest : Option Text)
    (factory : FactoryFunc B) (factories : Dict Text (FactoryFunc B))
    → mem 43 scheme ≡ false
    → scheme_of source ≡ ok (full scheme rest)
    → worker_for scheme_of source (register_worker_factory scheme factory factories)
      ≡ with_worker (factory new_worker)
unfolding worker_for register_worker_factory
worker_for-register_worker_factory scheme_of source scheme rest factory factories n u =
    let known = insert scheme factory factories in
    ap
      (λ r. elim r [
        | err e ↦ err e
        | ok s ↦ with_worker (get_handler_for_scheme (before_plus s) new_worker known)
      ])
      u
    ∙ ap (λ s. with_worker (get_handler_for_scheme s new_worker known))
        (before_plus-full scheme rest n)
    ∙ ap with_worker (handler-registered scheme new_worker factory factories)
