-- ===== src/Imap.antt =====
-- worker/imap: the IMAP worker. The values of go-imap are records of what the worker reads of them;
-- what the server and the library answer are arguments of the handlers. Log lines are left out.
-- The goroutine that reads the messages or numbers of a call runs to its end within the call.
pub mod Translate
pub mod Handlers
pub mod Reversing
pub mod Fetching
pub mod Updates
pub mod SeqMap
pub mod Mailbox
pub mod Selected
pub mod Answers
pub mod Answered
pub mod Search
pub mod Gathering
pub mod Connect
pub mod Scheme
use nyat.Common.{
  Result, err, ok, ℕ, ◌+◌, ◌%◌, Bool, false, List, [], ◌∷◌, Option, none, some, Text, get_elem?,
  set, delete_at,
}
use nyat.Imap.Connect.{Config, no_config}
use nyat.Models.{Ref, MessageInfo, DirectoryInfo, PartHeader, Flag}

pub record ImapAddress : Type 0 where
  pub personal_name : Text
  pub address : Text  -- what the method `Address` returns

pub record ImapEnvelope : Type 0 where
  pub date : ℕ
  pub subject : Text
  pub from : List ImapAddress
  pub reply_to : List ImapAddress
  pub to : List ImapAddress
  pub cc : List ImapAddress
  pub bcc : List ImapAddress
  pub message_id : Text

mutual
  pub data ImapStructure : Type 0 where
    part : PartHeader → ImapParts → ImapStructure

  pub data ImapParts : Type 0 where
    no_parts : ImapParts
    one_part : ImapStructure → ImapParts → ImapParts

pub record ImapMessage : Type 0 where
  pub seq_num : ℕ
  pub uid : ℕ
  pub flags : List Text
  pub structure : Option ImapStructure
  pub envelope : Option ImapEnvelope
  pub internal_date : ℕ

pub record MailboxStatus : Type 0 where
  pub name : Text
  pub read_only : Bool
  pub flags : List Text
  pub messages : ℕ
  pub recent : ℕ
  pub unseen : ℕ

-- `idle`: whether `idleStop` is there, so that the worker idles between the actions.
pub record ImapWorker : Type 0 where
  pub config : Config
  pub idle : Bool
  pub selected : MailboxStatus
  pub seq_map : List ℕ

abbrev pub no_status : MailboxStatus
no_status = record {
  name = [];
  read_only = false;
  flags = [];
  messages = 0;
  recent = 0;
  unseen = 0;
}

unfoldable pub new_imap_worker : ImapWorker
new_imap_worker = record { config = no_config; idle = false; selected = no_status; seq_map = [] }

-- `seqNum - 1` on 32 bits
unfoldable pub seq_index : ℕ → ℕ
seq_index n = (n + 4294967295) % 4294967296

unfoldable pub put_at : ℕ → ℕ → List ℕ → Option (List ℕ)
put_at i uid seq_map = elim (get_elem? seq_map i) [
  | none ↦ none
  | some old ↦ some (set seq_map i uid)
]

-- `seqMap[SeqNum-1] = Uid`
unfoldable pub put_uid : ℕ → ℕ → List ℕ → Option (List ℕ)
unfolding seq_index put_at
put_uid seq uid seq_map = put_at (seq_index seq) uid seq_map

unfoldable pub take_at : ℕ → List ℕ → Option (ℕ × List ℕ)
take_at i seq_map = elim (get_elem? seq_map i) [
  | none ↦ none
  | some uid ↦ some (uid, delete_at i seq_map)
]

-- The uid at a sequence number, which is then taken out of the map.
unfoldable pub expunge : ℕ → List ℕ → Option (ℕ × List ℕ)
unfolding seq_index take_at
expunge seq seq_map = take_at (seq_index seq) seq_map
