-- ===== src/Examples/Texts.antt =====
-- lib/format/format.go, commands/commands.go, worker/maildir/search.go and config/style.go at small inputs.
use nyat.Common.{
  arith, Result, ok, ℕ, ◌≡◌, ◌≢◌, refl, Bool, true, false, [], ◌∷◌, none, some, Text, codes,
  select_if, ◌↔◌,
}
use nyat.Models.{MessageInfo, Address, seen_flag}
use nyat.Commands.{Command, Commands, get_completions}
use nyat.Commands.Completion.{Begins, offered, get_completions-has}
use nyat.Commands.Register.{has_name}
use nyat.DirList.Unique.{InOrder}
use nyat.MsgSort.Criteria.{text_lt}
use nyat.Common.Dict.{has, text_key_eq}
use nyat.Maildir.{Criteria, Parts, flag_seen, search, contains_smart_case}
use nyat.Maildir.Matching.{readable, meant, search-meant}
use nyat.Styles.{Style, blank_style}
use nyat.Styles.Sets.{split_points}
use nyat.Format.{Ctx, text}
use nyat.Format.Parse.{parsed, out_of_fuel, parse_message_format}
use nyat.Format.Pieces.{Piece, spell, evaluate, parse_message_format-evaluate}
use nyat.Format.Ending.{parse_message_format-ends}

abbrev jo : Address
jo = record { name = codes "Jo"; address = codes "jo@example" }

abbrev letter : MessageInfo
letter = record {
  body_structure = none;
  envelope = some (record {
    date = 5;
    subject = codes "hello";
    from = jo ∷ [];
    reply_to = [];
    to = [];
    cc = [];
    bcc = [];
    message_id = [];
  });
  flags = seen_flag ∷ [];
  labels = [];
  internal_date = 5;
  rfc822_headers = none;
  size = 10;
  uid = 1;
  error = none;
}

abbrev ctx : Ctx
ctx = record {
  from_name = codes "Me";
  account_name = codes "home";
  msg_num = 1;
  msg_info = letter;
  msg_is_marked = false;
}

abbrev some_day : ℕ → Text
some_day n = codes "today"

-- "<%-17.17n> " and "%s"
abbrev name_piece : Piece
name_piece = record {
  before = codes "<";
  flag = codes "-";
  width = codes "17";
  point = codes ".17";
  verb = 110;
  before_plain = (refl, tt);
  one_flag = refl;
  width_digits = (refl, (refl, tt));
  a_point = (refl, (refl, (refl, tt)));
  no_digit = refl;
  no_point = refl;
}

abbrev subject_piece : Piece
subject_piece = record {
  before = codes "> ";
  flag = [];
  width = [];
  point = [];
  verb = 115;
  before_plain = (refl, (refl, tt));
  one_flag = refl;
  width_digits = tt;
  a_point = tt;
  no_digit = refl;
  no_point = refl;
}

parse_message_format-evaluate_example :
    parse_message_format some_day
      (codes "2006")
      ctx
      none
      (spell (name_piece ∷ subject_piece ∷ []) (codes "."))
    ≡ evaluate some_day (codes "2006") ctx (name_piece ∷ subject_piece ∷ []) (codes ".")
parse_message_format-evaluate_example =
    parse_message_format-evaluate some_day (codes "2006") ctx (name_piece ∷ subject_piece ∷ [])
      (codes ".") (refl, tt)

-- The format for printing, with the arguments.
printed :
    parse_message_format some_day (codes "2006") ctx none (codes "<%-17.17n> %s.")
    ≡ parsed (codes "<%-17.17s> %s.") (text (codes "Jo") ∷ text (codes "hello") ∷ [])
unfolding parse_message_format
printed = refl

parse_message_format-ends_example :
    parse_message_format some_day (codes "2006") ctx none (codes "%%%n") ≢ out_of_fuel
parse_message_format-ends_example =
    parse_message_format-ends some_day (codes "2006") ctx none (codes "%%%n")

abbrev quit : Command
quit = record {
  aliases = codes "quit" ∷ codes "q" ∷ [];
  execute = λ args. none;
  complete = λ args. none;
}

abbrev table : Commands
table = (codes "quit", quit) ∷ (codes "q", quit) ∷ []

get_completions-has_example :
    InOrder text_lt (offered (get_completions table (codes " ") (some [])))
    × ((o : Text)
        → (has_name o (offered (get_completions table (codes " ") (some []))) ≡ has o table)
          × ((has_name o (offered (get_completions table (codes "qu") (some (codes "qu" ∷ []))))
                ≡ true)
              ↔ ((has o table ≡ true) × Begins (codes "qu") o)))
get_completions-has_example =
    get_completions-has table (codes " ") (codes "q") b'u' (codes "qu") (λ e. omega (arith, e))

-- No letter is upper case, and every letter its own lower case.
abbrev never : ℕ → Bool
never c = false

abbrev same : ℕ → ℕ
same c = c

-- A seen message that says hello.
abbrev seen_hello : Parts
seen_hello = record {
  flags = flag_seen ∷ [];
  header = λ key. codes "hello";
  body = codes "hello world";
  all = [];
}

abbrev seen_with_world : Criteria
seen_with_world = record {
  header = [];
  body = codes "world" ∷ [];
  text = [];
  with_flags = flag_seen ∷ [];
  without_flags = [];
}

search-meant_example :
    search never same (λ k. ok (readable seen_hello)) seen_with_world (ok (4 ∷ []))
    ≡ ok (select_if (λ k. meant never same seen_with_world seen_hello) (4 ∷ []))
search-meant_example = search-meant never same seen_with_world (λ k. seen_hello) (4 ∷ [])

-- The search finds the message.
finds : meant never same seen_with_world seen_hello ≡ true
unfolding contains_smart_case
finds = refl

abbrev bold : Style
bold = record blank_style { bold = true }

abbrev no_color : Text → ℕ
no_color name = 0

abbrev no_match : Text → Text → Result Bool
no_match regex name = ok false

selected_bold : split_points (codes "selected.bold") ≡ codes "selected" ∷ codes "bold" ∷ []
unfolding split_points
selected_bold = refl
