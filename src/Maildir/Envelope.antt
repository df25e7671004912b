-- ===== src/Maildir/Envelope.antt =====
-- worker/lib/parse.go: the envelope of a message, and `MessageInfo`, which puts all together.
use nyat.Common.{
  ℕ, Bool, true, false, List, [], ◌∷◌, ◌++◌, Option, none, some, Text, codes, ◌==◌, if◌then◌else◌,
  Result, ok, err,
}
use nyat.Models.{Flag, Address, BodyStructure, Envelope, MessageInfo}
use nyat.Maildir.{then_part}
use nyat.Maildir.Parse.{Header, Entity, entity, parsed, unparsed, parse_entity_structure}

-- An error with a text before it.
unfoldable pub explain {ℓ} : {A : Type ℓ} → Text → Result A → Result A
explain prefix (ok a) = ok a
explain prefix (err e) = err (prefix ++ e)

-- The value, or another one if there was an error.
unfoldable pub or_value {ℓ} : {A : Type ℓ} → A → Result A → A
or_value a (ok b) = b
or_value a (err e) = a

-- The result of the first call without an error, or else of the second.
unfoldable pub or_try {ℓ} : {A : Type ℓ} → Result A → Result A → Result A
or_try (ok a) r = ok a
or_try (err e) r = r

-- A text, if there was no error.
unfoldable pub without_error : Text × Option Text → Result Text
without_error (t, none) = ok t
without_error (t, some e) = err e

-- Whether a text is missing: it is empty, or there was an error.
unfoldable pub is_missing : Text × Option Text → Bool
is_missing ([], e) = true
is_missing (c ∷ t, none) = false
is_missing (c ∷ t, some e) = true

-- `parseAddressList`: a list that cannot be parsed becomes one address with its text for a name.
unfoldable pub parse_address_list : Header → Text → Result (List Address)
unfolding without_error
parse_address_list h key = elim (h.address_list key) [
  | ok addrs ↦ ok addrs
  | err e ↦ elim (without_error (h.text key)) [
    | ok hdr ↦ ok (record { name = hdr; address = [] } ∷ [])
    | err _ ↦ err e
  ]
]

module _ (find_date : Text → Text) (time_of : Text → Text → Result ℕ) where
  -- `parseReceivedHeader`, with the expression `dateRe` as `find_date`.
  unfoldable pub parse_received_header : Header → Result ℕ
  unfolding without_error
  parse_received_header h = elim (without_error (h.text (codes "received"))) [
    | err e ↦ err (codes "received header not parseable: " ++ e)
    | ok guess ↦ time_of (codes "Mon, 02 Jan 2006 15:04:05 -0700") (find_date guess)
  ]

  -- The attempts after the date of the header: the received header if the date is empty or not
  -- there, another layout, and the received header as a last resort.
  unfoldable pub guess_date : Header → Text × Option Text → Result ℕ
  unfolding parse_received_header or_try is_missing
  guess_date h text =
      let received = parse_received_header h in
      or_try (if is_missing text then received else err []) (
        or_try (time_of (codes "Mon, _2 Jan 2006 15:04:05 -0700 (GMT-07:00)") text.0)
          (or_try received (err (codes "unrecognized date format: " ++ text.0))))

  -- `parseDate`
  unfoldable pub parse_date : Header → Result ℕ
  unfolding guess_date or_try
  parse_date h = or_try h.date (guess_date h (h.text (codes "date")))

  -- `parseEnvelope`. A date that cannot be parsed is the zero time, and no error for `MessageInfo`.
  unfoldable pub parse_envelope : Header → Result Envelope
  unfolding parse_address_list parse_date explain or_try or_value then_part without_error
  parse_envelope h =
      then_part
        (explain (codes "could not read from address: ") (parse_address_list h (codes "from")))
        (λ from.
          then_part
            (explain (codes "could not read to address: ") (parse_address_list h (codes "to")))
            (λ to.
              then_part
                (explain (codes "could not read cc address: ") (parse_address_list h (codes "cc")))
                (λ cc.
                  then_part
                    (explain (codes "could not read bcc address: ")
                      (parse_address_list h (codes "bcc")))
                    (λ bcc.
                      then_part
                        (explain (codes "could not read reply-to address: ")
                          (parse_address_list h (codes "reply-to")))
                        (λ reply_to.
                          then_part (explain (codes "could not read subject: ") h.subject)
                            (λ subject.
                              then_part
                                (or_try h.message_id (without_error (h.text (codes "message-id"))))
                                (λ message_id. ok (record {
                                  date = or_value 0 (parse_date h);
                                  subject = subject;
                                  message_id = message_id;
                                  from = from;
                                  reply_to = reply_to;
                                  to = to;
                                  cc = cc;
                                  bcc = bcc;
                                }))))))))

  -- The received date, or the envelope's if it is not there.
  unfoldable pub received_date : Header → Envelope → ℕ
  unfolding parse_received_header or_value
  received_date h env =
      let t = or_value 0 (parse_received_header h) in if t == 0 then env.date else t

  -- What has been read of a message, with its flags: the structure may be missing because of an
  -- unknown encoding, which is kept as the error of the message.
  unfoldable pub assemble :
      Header → ℕ → Option BodyStructure → Option Text → Envelope → List Flag → MessageInfo
  unfolding received_date
  assemble h uid structure parse_error env flags = record {
    body_structure = structure;
    envelope = some env;
    flags = flags;
    labels = [];
    internal_date = received_date h env;
    rfc822_headers = some h.block;
    size = 0;
    uid = uid;
    error = parse_error;
  }

  unfoldable pub with_structure :
      Header → ℕ → Result (List Flag) → Option BodyStructure → Option Text → Result MessageInfo
  unfolding parse_envelope explain then_part assemble
  with_structure h uid flags structure parse_error =
      then_part (explain (codes "could not parse envelope: ") (parse_envelope h))
        (λ env. then_part flags (λ fs. ok (assemble h uid structure parse_error env fs)))

  -- `MessageInfo` of a message with a uid and the result of reading its flags, without labels.
  unfoldable pub message_info_of : ℕ → Result (List Flag) → Entity → Result MessageInfo
  unfolding with_structure parse_entity_structure
  message_info_of uid flags (entity h text r) = elim (parse_entity_structure (entity h text r)) [
    | parsed b ↦ with_structure h uid flags (some b) none
    | unparsed e true ↦ with_structure h uid flags none (some e)
    | unparsed e false ↦ err (codes "could not get structure: " ++ e)
  ]
