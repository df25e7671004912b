-- ===== src/Lib.antt =====
-- A model of the mail client nyat: its state machines and data structures as functions and step
-- relations, and what they are proved to do.
--
-- The program. nyat.go starts an event loop. An account's widget owns one worker, which runs a mail
-- backend in another goroutine; the two talk through queues of messages (worker/types/worker.go).
-- For each directory a `MessageStore` (lib/msgstore.go) keeps what is known of the messages; it posts
-- actions to the worker and is updated by the answers. The widgets show a store's messages in tabs
-- (lib/ui/tab.go). Keys are looked up in bindings (config/bindings.go), or typed into a text input
-- (lib/ui/textinput.go), whose command lines go to a history (commands/history.go). Backends number
-- their messages with a uid store (lib/uidstore/uidstore.go) and sort them (worker/lib/sort.go); a
-- viewer picks a part of a message (models/models.go, lib/structure_helpers.go). The list of directories
-- (widgets/dirlist.go) opens one of them; the IMAP worker (worker/imap) turns the actions into
-- calls of the server and its updates into answers, and the maildir worker (worker/maildir) into calls
-- of go-maildir, with its uids in a uid store.
--
-- The files.
--   Common: Boolean tests, lists, splices, integers and dictionaries, shared by all.
--   Models: the records of models/models.go and worker/types/sort.go, and the messages of
--     worker/types/messages.go that the workers post.
--   MsgStore: lib/msgstore.go. State has the fields; Fetch, Actions, Select and Update have the methods,
--     each a function from the store to the store and its effects: actions posted, callbacks and
--     handlers called, in order. A closure left with the worker is a `Continuation`, run by `resume`.
--     Fetching, Answers, Bodies, Failing, Contents, Deleting, Visual and Selecting have the
--     proofs.
--   TextInput: lib/ui/textinput.go; Events has its keys, Popover its list of completions, Printing
--     what is drawn. Zipper says what a key means for the text on both sides of the cursor; Editing,
--     Words and Keys prove that the code does it. Drawing is about the scroll, Stems and Completing about the list of completions.
--   Tabs: lib/ui/tab.go; Pins has `PinTab` and `UnpinTab`, Mouse the strip's events. Valid, Safety,
--     Moving, Removing, Faces, PinOrder, Pinning and Unpinning have the proofs.
--   Bindings: config/bindings.go. Names is the table of key names, Parse the reader, Lookup the search;
--     Meaning, Layers and Grammar have the proofs.
--   MsgSort: worker/lib/sort.go (Criteria) and lib/sort/sort.go (Parse, SortBy); Orders, Sorted,
--     Arguments and Ranks have the proofs.
--   Structure: `PartAtIndex` of models/models.go and lib/structure_helpers.go; Paths, Plaintext and
--     NonMultipart have the proofs.
--   Uidstore: lib/uidstore/uidstore.go; Invariant is about one store, Worlds about several over one
--     counter.
--   Worker: worker/types/worker.go; Callbacks follows the answers to an action, and Registry is about
--     worker/worker.go and worker/handlers/register.go.
--   CmdHistory: commands/history.go; Buffer and Placement have the proofs.
--   DirList: widgets/dirlist.go and lib/dirstore.go. Folders and FolderOrder are about filtering and
--     sorting, Unique about sorted lists, Opening and Listed about the callbacks of `Select` and
--     `UpdateList`; Rows has `Draw`, Counts and Labels the text of a row, Clicking the mouse.
--   Imap: worker/imap and lib/oauthbearer.go. Translate has the values of imap.go, Handlers, Fetching and
--     Updates the actions and updates, Search and Connect what their names say. SeqMap and Mailbox
--     compare the map of sequence numbers with the server's mailbox; Selected, Answers, Answered,
--     Reversing, Gathering and Scheme have other proofs.
--   Format: lib/format/format.go, with `run_verb` for the switch over the verbs; Parse has
--     `ParseMessageFormat`. Pieces, Ending and Panics have the proofs.
--   Commands: commands/commands.go and commands/util.go; Paths completes paths. Register and
--     Completion have the proofs.
--   Maildir: worker/maildir and worker/lib/parse.go. Maildir itself has the search of search.go, whose
--     proofs are in Matching and Unknown. Parse and Envelope read a message as worker/lib/parse.go does.
--     Steps has the worker's state and steps, Container the functions of container.go and message.go,
--     Worker and Actions those of worker.go, up to `run_event` for the loop of `Run`. Kept has the rules
--     for an invariant of the steps, which Keeping, Handling and Acting apply to all of them; Safe and
--     Answering are about every action, Contents, Deleting and Flagging about single ones, and PartTexts
--     about the texts of the parts that Structure finds.
--   Styles: config/style.go; Sets has the style sets. Composing and Selected have the proofs.
--   Examples: every theorem at a concrete value.
--
-- Conventions. A panic is `none`. An `int` is an integer without bound; a uid keeps its 32 bits and a
-- message id its 64, and theorems on uids assume that the counter does not wrap. A map is a list of
-- pairs, and a `range` over a map, whose order Go leaves open, goes through that list. A text is its
-- code points. A callback, a drawable or a reader is known by its address: where the code calls one,
-- the result lists the call, and what a callback does to the store is a later operation. The
-- `ReadRune` loop and the other loops are recursions on their input; the one loop with fuel, that of
-- `ensureScroll`, has index + 1 rounds, and its scroll grows by one in each and stops above the
-- index. `unicode.ToLower`, tcell's key numbers, the length of a tab's label and the callback that
-- closes a tab are parameters, and so are regular expressions, the widths of go-runewidth, what getopt
-- and net/url make of a text, and what a server answers to a call of go-imap. The swapping loop of
-- worker/imap/open.go has as many rounds as there are uids, and decimal digits as many as the number
-- and one, and both stop before. The loop of `ParseMessageFormat` has one round more than the format has
-- bytes, and each round reads at least one. There, and in a style set, a text is its bytes. The words
-- that shlex splits, the printing of dates, the names of colours, the file system and what is read of
-- a message for a search are parameters. The maildir worker runs over a disk of any type: go-maildir,
-- the file system and the watcher are functions on it, the fields of `Library`, which may change it
-- and may fail; a theorem that relies on what one of them does has that as a hypothesis on `Library`.
-- The parts of a message are read as go-message gives them, so the walk over them is a recursion on
-- them; a number inside the text of an error is left out.
--
-- Not modelled: drawing, but for what the text input and its list of completions print and the rows
-- of the directory list; the notmuch backend and most widgets, which mostly call libraries for notmuch,
-- MIME and the terminal; the single commands; configuration files but for the styles and the account's
-- settings; sockets and subprocesses.
pub mod Common
pub mod Models
pub mod Structure
pub mod TextInput
pub mod Bindings
pub mod Uidstore
pub mod Worker
pub mod CmdHistory
pub mod DirList
pub mod Imap
pub mod Format
pub mod Commands
pub mod Maildir
pub mod Styles
pub mod Tabs
pub mod MsgSort
pub mod MsgStore
pub mod Examples
