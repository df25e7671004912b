-- ===== src/Maildir/Flagging.antt =====
-- worker/maildir/message.go: what `SetOneFlag` does to the flags of messages.
use nyat.Common.{
  ℕ, Bool, true, false, not, ◌&&◌, List, [], ◌∷◌, ◌++◌, Option, some, Text, Result, ok, err, codes,
  text_eq, text_eq_iff, if◌then◌else◌, ◌==◌, ◌≡◌, refl, ◌∙◌, arith, mem, select_if,
}
use nyat.Maildir.Envelope.{explain}
use nyat.Maildir.Steps.{Library, Mail, MaildirWorker, ◌>>=◌, next, call, explaining, explained}
use nyat.Maildir.Container.{flags_of, set_one_flag}
use nyat.Maildir.Deleting.{is_ok}

-- The flags of go-maildir: `Flags` reads the letters of a message and changes none; `SetFlags` gives a
-- message the letters of a list, or fails, and leaves those of all other messages. `letter` says which
-- letters there are.
pub record KeepsFlags {D : Type 0} (lib : Library D) (letter : Text → Text → D → ℕ → Bool)
    : Type 0 where
  pub read :
      (dir key : Text) (d : D) (fs : List ℕ) (f : ℕ)
      → (lib.flags dir key d).1 ≡ ok fs
      → mem f fs ≡ letter dir key d f
  pub unchanged :
      (dir key : Text) (d : D) (dir' key' : Text) (f : ℕ)
      → letter dir' key' (lib.flags dir key d).0 f ≡ letter dir' key' d f
  pub written :
      (dir key : Text) (fs : List ℕ) (d : D) (dir' key' : Text) (f : ℕ)
      → letter dir' key' (lib.set_flags dir key fs d).0 f ≡ (
          if is_ok (lib.set_flags dir key fs d).1 && (text_eq dir dir' && text_eq key key')
          then mem f fs
          else letter dir' key' d f)

abbrev with_flag : ℕ → Bool → List ℕ → List ℕ
with_flag flag enable fs = if enable then fs ++ flag ∷ [] else select_if (λ f. not (f == flag)) fs

mem-added :
    (f flag : ℕ) (fs : List ℕ) → mem f (fs ++ flag ∷ []) ≡ (if f == flag then true else mem f fs)
mem-added f flag [] = ground arith
mem-added f flag (g ∷ fs) = ground (arith, mem-added f flag fs)

mem-removed :
    (f flag : ℕ) (fs : List ℕ)
    → mem f (select_if (λ g. not (g == flag)) fs) ≡ (if f == flag then false else mem f fs)
mem-removed f flag [] = ground arith
mem-removed f flag (g ∷ fs) = ground (arith, mem-removed f flag fs)

mem-with_flag :
    (f flag : ℕ) (enable : Bool) (fs : List ℕ)
    → mem f (with_flag flag enable fs) ≡ (if f == flag then enable else mem f fs)
mem-with_flag f flag true fs = mem-added f flag fs
mem-with_flag f flag false fs = mem-removed f flag fs

module _ {D : Type 0} (lib : Library D) (letter : Text → Text → D → ℕ → Bool)
    (laws : KeepsFlags lib letter) (flag : ℕ) (enable : Bool) (m : Mail) (w : MaildirWorker D) where
  -- What is to be of the disk after a result.
  abbrev pub SetsFlag : Result (Unit {0}) → D → Type 0
  SetsFlag r d' =
      (dir key : Text) (f : ℕ)
      → letter dir key d' f ≡ (
          if is_ok r && (text_eq m.dir dir && text_eq m.key key) && (f == flag)
          then enable
          else letter dir key w.disk f)

  abbrev pub Outcome : Option (Result (Unit {0}) × MaildirWorker D) → Type 0
  Outcome o =
      (r : Result (Unit {0})) × (d' : D) × (o ≡ some (r, record w { disk = d' })) × SetsFlag r d'

  set_flags-SetsFlag :
      (d : D) (fs : List ℕ)
      → ((dir key : Text) (f : ℕ) → letter dir key d f ≡ letter dir key w.disk f)
      → ((f : ℕ) → mem f fs ≡ letter m.dir m.key w.disk f)
      → let p = lib.set_flags m.dir m.key (with_flag flag enable fs) d in SetsFlag p.1 p.0
  set_flags-SetsFlag d fs same h dir key f =
      laws.written m.dir m.key (with_flag flag enable fs) d dir key f
      ∙ ground (
        arith,
        mem-with_flag f flag enable fs,
        h f,
        same dir key f,
        text_eq_iff m.dir dir,
        text_eq_iff m.key key,
      )

  on_flags :
      (p : D × Result (List ℕ))
      → ((dir key : Text) (f : ℕ) → letter dir key p.0 f ≡ letter dir key w.disk f)
      → ((fs : List ℕ) (f : ℕ) → p.1 ≡ ok fs → mem f fs ≡ letter m.dir m.key w.disk f)
      → Outcome (
          next
            (λ fs. call (lib.set_flags m.dir m.key (with_flag flag enable fs)))
            (explained
              (codes "could not read previous flags: ")
              (some (p.1, record w { disk = p.0 }))))
  unfolding next explained explain call
  on_flags (d, err e) same h = (_, d, refl, λ dir key f. same dir key f)
  on_flags (d, ok fs) same h = (_, _, refl, set_flags-SetsFlag d fs same (λ f. h fs f refl))

  -- `SetOneFlag` sets the flag of the message if it is to be enabled, and clears it otherwise, and
  -- changes no other flag and no other message; with an error nothing is changed.
  pub set_one_flag-SetsFlag : Outcome (set_one_flag lib flag enable m w)
  unfolding set_one_flag ◌>>=◌ explaining flags_of call
  set_one_flag-SetsFlag =
      on_flags (lib.flags m.dir m.key w.disk)
        (λ dir key f. laws.unchanged m.dir m.key w.disk dir key f)
        (λ fs f e. laws.read m.dir m.key w.disk fs f e)
