-- ===== src/Maildir/Handling.antt =====
-- worker/maildir: what the steps keep, every action keeps. No message without an envelope is sorted, so
-- the sorting does not panic.
use nyat.Common.{
  ℕ, Bool, true, false, List, [], ◌∷◌, ◌++◌, Option, none, some, Text, Result, ok, err, All, refl,
  subst, codes, length,
}
use nyat.Models.{
  SortCriterion, directory_info, directory_contents, MessageInfo, BodyStructure, Flag,
}
use nyat.MsgSort.Criteria.{sort}
use nyat.MsgSort.Sorted.{HasEnvelope, sort-Lexicographic}
use nyat.Maildir.{then_part}
use nyat.Maildir.Parse.{Header, Entity, entity, Parsed, parsed, unparsed, parse_entity_structure}
use nyat.Maildir.Envelope.{with_structure, message_info_of}
use nyat.Maildir.Steps.{Library, Mail, MaildirWorker, Step, ◌>>=◌, try, not_nil, give}
use nyat.Maildir.Container.{read_info}
use nyat.Maildir.Worker.{
  infos_of, sort_uids, handle_fetch_directory_contents, rescan, handle_fs_event,
}
use nyat.Maildir.Kept.{
  IsKept, gives, Keeps, Any, tried, gave, had, bind-Keeps, then-Keeps, try-Keeps, explaining-Keeps,
  give-Keeps, gets-Keeps, from_result-Keeps, call-Keeps, post-Keeps, selected_dir-Keeps,
  set_criteria-Keeps, uids_of-Keeps, message-Keeps,
}
use nyat.Maildir.Keeping.{flags_of-Keeps, get_directory_info-Keeps}

-- A result that is an error, or information with an envelope.
abbrev pub Enveloped : Result MessageInfo → Type 0
Enveloped (err e) = Unit
Enveloped (ok info) = HasEnvelope info

then_part-Enveloped :
    {A : Type 0} (r : Result A) (f : A → Result MessageInfo)
    → ((a : A) → Enveloped (f a))
    → Enveloped (then_part r f)
unfolding then_part
then_part-Enveloped (err e) f h = tt
then_part-Enveloped (ok a) f h = h a

module _ (find_date : Text → Text) (time_of : Text → Text → Result ℕ) where
  with_structure-Enveloped :
      (h : Header) (uid : ℕ) (flags : Result (List Flag)) (b : Option BodyStructure)
      (e : Option Text)
      → Enveloped (with_structure find_date time_of h uid flags b e)
  unfolding with_structure
  with_structure-Enveloped h uid flags b e =
      then_part-Enveloped _ _ (λ env. then_part-Enveloped flags _ (λ fs. refl))

  structured :
      (h : Header) (uid : ℕ) (flags : Result (List Flag)) (p : Parsed BodyStructure)
      → Enveloped (elim p [
        | parsed b ↦ with_structure find_date time_of h uid flags (some b) none
        | unparsed e true ↦ with_structure find_date time_of h uid flags none (some e)
        | unparsed e false ↦ err (codes "could not get structure: " ++ e)
      ])
  structured h uid flags (parsed b) = with_structure-Enveloped h uid flags (some b) none
  structured h uid flags (unparsed e true) = with_structure-Enveloped h uid flags none (some e)
  structured h uid flags (unparsed e false) = tt

  message_info_of-Enveloped :
      (uid : ℕ) (flags : Result (List Flag)) (e : Entity)
      → Enveloped (message_info_of find_date time_of uid flags e)
  unfolding message_info_of
  message_info_of-Enveloped uid flags (entity h t r) =
      structured h uid flags (parse_entity_structure (entity h t r))

module _ {D : Type 0} {N : Type 0} {I : MaildirWorker D → Type 0} (k : IsKept N I)
    (lib : Library D) where
  pub read_info-Keeps : (m : Mail) → Keeps N I HasEnvelope (read_info lib m)
  unfolding read_info
  read_info-Keeps m = then-Keeps (call-Keeps k _) (λ t.
      then-Keeps (explaining-Keeps _ _ (had _)) (λ e.
        bind-Keeps
          (from_result-Keeps _ (λ info q.
            subst Enveloped q
              (message_info_of-Enveloped lib.find_date lib.time_of m.uid (ok []) e)))
          (λ info h. then-Keeps (flags_of-Keeps k lib m) (λ fs. give-Keeps _ h))))

  tried_info : (m : Step D MessageInfo) → Keeps N I HasEnvelope m → Keeps N I Enveloped (try m)
  tried_info m h = try-Keeps m (λ a q. q) (λ e. tt) h

  added :
      (r : Result MessageInfo) (infos : List MessageInfo)
      → Enveloped r
      → All HasEnvelope infos
      → All HasEnvelope (elim r [ err e ↦ infos | ok info ↦ info ∷ infos ])
  added (err e) infos h hs = hs
  added (ok info) infos h hs = (h, hs)

  module _ (lower : ℕ → ℕ) where
    infos_of-Keeps :
        (uids : List ℕ) → Keeps N I (λ infos. All HasEnvelope infos) (infos_of lib lower uids)
    unfolding infos_of
    infos_of-Keeps [] = give-Keeps _ tt
    infos_of-Keeps (uid ∷ uids) =
        bind-Keeps
          (tried_info _ (
            then-Keeps (selected_dir-Keeps k)
              (λ dir. then-Keeps (message-Keeps k lib dir uid) (λ m. read_info-Keeps m))))
          (λ r h. bind-Keeps (infos_of-Keeps uids) (λ infos hs. give-Keeps _ (added r infos h hs)))

    -- Where every message has an envelope, the sorting gives a result.
    sorted :
        (infos : List MessageInfo) (cs : List SortCriterion)
        → All HasEnvelope infos
        → Keeps N I Any (not_nil (sort lower infos cs))
    unfolding not_nil
    sorted infos cs h =
        let (out, e, o, n) = sort-Lexicographic lower infos cs h in
        rw e (record { run = λ w i. gives tt i })

    sort_uids-Keeps :
        (uids : List ℕ) (cs : List SortCriterion) → Keeps N I Any (sort_uids lib lower uids cs)
    unfolding sort_uids
    sort_uids-Keeps uids [] = gave uids
    sort_uids-Keeps uids (c ∷ cs) =
        bind-Keeps (infos_of-Keeps uids) (λ infos h. sorted infos (c ∷ cs) h)

    pub fetch_contents-Keeps :
        (id : ℕ) (cs : List SortCriterion)
        → Keeps N I Any (handle_fetch_directory_contents lib lower id cs)
    unfolding handle_fetch_directory_contents
    fetch_contents-Keeps id cs = then-Keeps (selected_dir-Keeps k) (λ dir.
        then-Keeps (uids_of-Keeps k lib dir) (λ uids.
          then-Keeps (sort_uids-Keeps uids cs) (λ sorted_uids.
            then-Keeps (set_criteria-Keeps k cs)
              (λ _. post-Keeps k (directory_contents (some id) sorted_uids) tt))))

    rescan-Keeps : (dir : Text) → Keeps N I Any (rescan lib lower dir)
    unfolding rescan
    rescan-Keeps dir = then-Keeps (call-Keeps k _) (λ fresh.
        then-Keeps (uids_of-Keeps k lib dir) (λ uids. then-Keeps (gets-Keeps _) (λ cs.
          then-Keeps (sort_uids-Keeps uids cs) (λ sorted_uids.
            then-Keeps (post-Keeps k (directory_contents none sorted_uids) tt) (λ _.
              then-Keeps (gets-Keeps _) (λ name.
                then-Keeps (get_directory_info-Keeps k lib name) (λ info.
                  post-Keeps k (directory_info (record info { recent = length fresh })) tt)))))))

    on_event :
        (o : Option Text)
        → Keeps N I {A = Unit {0}} Any (elim o [
          | none ↦ give tt
          | some dir ↦ (do logged ← try (rescan lib lower dir); give tt)
        ])
    on_event none = gave tt
    on_event (some dir) = then-Keeps (tried _ (rescan-Keeps dir)) (λ r. gave tt)

    pub handle_fs_event-Keeps : (b : Bool) → Keeps N I Any (handle_fs_event lib lower b)
    unfolding handle_fs_event
    handle_fs_event-Keeps false = gave tt
    handle_fs_event-Keeps true = then-Keeps (gets-Keeps _) (λ o. on_event o)
