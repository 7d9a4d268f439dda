-- ===== src/Tests/Texts.antt =====
-- The text functions and the connection string at concrete inputs.
use debugger_dap.Common.{
  false, take, ℕ, arith, ◌≤◌, ◌≡◌, ◌≢◌, refl, true, List, [], ◌∷◌, ◌++◌, length, drop,
}
use debugger_dap.Common.Int.{pos, negsuc}
use debugger_dap.Text.{Text, codes}
use debugger_dap.Text.Find.{Lacks}
use debugger_dap.Text.Decimal.{to_string}
use debugger_dap.Text.Argv.{
  build_argv, build_tokens, scan_all, by_argv_state, in_normal, in_quotes, in_escape, quote_of,
  push_token, unquoted, without_last, ends_in,
}
use debugger_dap.Text.Argv.RoundTrip.{IsArgument, command_line, build_argv-command_line}
use debugger_dap.Text.Slashes.{
  convert_slashes, convert_from, to_unix_path, IsSmooth, convert_slashes_lem,
}
use debugger_dap.Socket.{Answer, timeout, wrote, returned, Serves, send, send_loop, send-Serves}
use debugger_dap.ConnectionString.{tcp, unix_local_socket, do_parse, do_parse-tcp, do_parse-unix}

-- Quotes of the other kind stand for themselves, and an escaped quote does not end a token.
argv_quotes :
    build_argv (codes "a 'b c' \"d \\\" e\" f")
    ≡ codes "a" ∷ codes "'b c'" ∷ codes "d \" e" ∷ codes "f" ∷ []
unfolding build_argv build_tokens scan_all by_argv_state in_normal in_quotes in_escape quote_of
    push_token unquoted without_last ends_in
argv_quotes = refl

-- A backslash in front of the closing quote keeps the token open.
argv_last_backslash : build_argv (codes "\"c:\\my dir\\\" x") ≡ codes "\"c:\\my dir\" x" ∷ []
unfolding build_argv build_tokens scan_all by_argv_state in_normal in_quotes in_escape quote_of
    push_token unquoted without_last ends_in
argv_last_backslash = refl

slashes_doubled : to_unix_path (codes "c:\\\\a\\/b") ≡ codes "c:/a/b"
unfolding to_unix_path convert_slashes convert_from
slashes_doubled = refl

abbrev arguments : List Text
arguments = codes "gdb" ∷ codes "my file" ∷ []

first-IsArgument : IsArgument (codes "gdb")
first-IsArgument = record { not_empty = cc; plain = (refl, (refl, (refl, tt))) }

second-IsArgument : IsArgument (codes "my file")
second-IsArgument = record {
  not_empty = cc;
  plain = (refl, (refl, (refl, (refl, (refl, (refl, (refl, tt)))))));
}

build_argv-command_line_example : build_argv (command_line arguments) ≡ arguments
build_argv-command_line_example =
    build_argv-command_line arguments (first-IsArgument, (second-IsArgument, tt))

abbrev backslash : ℕ
backslash = 92

backslash-ne-slash : backslash ≢ 47
backslash-ne-slash = omega arith

convert_slashes_example :
    IsSmooth 92 47 0 (convert_slashes (codes "c:\\\\a\\b") 92 47)
    × (convert_slashes (convert_slashes (codes "c:\\\\a\\b") 92 47) 92 47
        ≡ convert_slashes (codes "c:\\\\a\\b") 92 47)
convert_slashes_example =
    convert_slashes_lem (codes "c:\\\\a\\b") 92 47 backslash-ne-slash (omega arith)

drop-IsSubstr : (s : Text) (n : ℕ) → n ≤ length s → drop n s ≡ drop n s
drop-IsSubstr s n h = refl

abbrev localhost : Text
localhost = codes "127.0.0.1"

localhost-ne-nil : localhost ≢ []
localhost-ne-nil = cc

localhost-Lacks : Lacks b':' localhost
localhost-Lacks = omega arith

do_parse-tcp_example :
    do_parse (λ s n. drop n s) false (codes "tcp://" ++ (localhost ++ b':' ∷ to_string 12345))
    ≡ record { scheme = tcp; host = localhost; path = []; port = pos 12345; is_ok = true }
do_parse-tcp_example =
    do_parse-tcp (λ s n. drop n s) false localhost 12345 (omega arith) drop-IsSubstr
      localhost-ne-nil localhost-Lacks

socket_path-ne-nil : codes "/tmp/dap" ≢ []
socket_path-ne-nil = cc

do_parse-unix_example :
    do_parse (λ s n. drop n s) false (codes "unix://" ++ codes "/tmp/dap") ≡ record {
      scheme = unix_local_socket;
      host = [];
      path = codes "/tmp/dap";
      port = negsuc 0;
      is_ok = true;
    }
do_parse-unix_example =
    do_parse-unix (λ s n. drop n s) false (codes "/tmp/dap") drop-IsSubstr socket_path-ne-nil

abbrev answers : List Answer
answers = timeout ∷ wrote 2 ∷ timeout ∷ wrote 3 ∷ []

answers-Serves : Serves answers (length (codes "hello"))
answers-Serves = (omega arith, (omega arith, tt))

send-Serves_example :
    send (λ s. s) true answers (codes "hello")
    ≡ (returned, take (length (codes "hello")) (codes "hello"))
send-Serves_example = send-Serves (λ s. s) answers (codes "hello") answers-Serves

-- Two characters that take two bytes each: half of the message is sent.
accents_cut :
    send (λ s. 195 ∷ 169 ∷ 195 ∷ 168 ∷ []) true (wrote 2 ∷ []) (233 ∷ 232 ∷ [])
    ≡ (returned, 195 ∷ 169 ∷ [])
unfolding send send_loop
accents_cut = refl

-- U+012F has the low byte of a slash, so the slash behind it is taken for a second one.
slash_lost : convert_slashes (303 ∷ 47 ∷ []) 92 47 ≡ 303 ∷ []
unfolding convert_slashes convert_from
slash_lost = refl
