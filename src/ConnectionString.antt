-- ===== src/ConnectionString.antt =====
-- `dap::ConnectionString` (src/DebugAdapterProtocol/ConnectionString.cpp).
use debugger_dap.Common.{
  ℕ, ◌≤◌, ◌<◌, ◌≡◌, ◌≢◌, refl, ap, ◌∙◌, Bool, true, false, not, ◌&&◌, [], ◌∷◌, ◌++◌, length, drop,
  if◌then◌else◌, arith,
}
use debugger_dap.Common.Int.{ℤ, pos, negsuc, eq_ℤ}
use debugger_dap.Text.{
  Text, codes, text_eq, before_first, after_first, find_char, before_at, after_at,
}
use debugger_dap.Text.Find.{Lacks, before_first_lem, after_first_lem}
use debugger_dap.Text.Decimal.{to_string, atol, atol-to_string, to_string-ne-nil}

-- `eProtocol`; `unset` stands for the value that no constructor gives the field.
pub data Scheme : Type 0 where
  unset tcp unix_local_socket : Scheme

-- The fields of the class.
pub record Connection : Type 0 where
  pub scheme : Scheme
  pub host : Text
  pub path : Text
  pub port : ℤ
  pub is_ok : Bool

abbrev is_empty : Text → Bool
is_empty [] = true
is_empty (c ∷ s) = false

-- The values before `DoParse`.
abbrev pub unparsed : Connection
unparsed = record { scheme = unset; host = []; path = []; port = negsuc 0; is_ok = false }

-- The number behind the colon; the port stays -1 if there is none.
unfoldable pub port_of : Text → ℤ
port_of [] = negsuc 0
port_of (c ∷ s) = atol (c ∷ s)

unfoldable pub tcp_with : Text → ℤ → Connection
tcp_with host port = record {
  scheme = tcp;
  host = host;
  path = [];
  port = port;
  is_ok = not (is_empty host) && not (eq_ℤ port (negsuc 0));
}

unfoldable pub tcp_of : Text → Connection
unfolding port_of tcp_with
tcp_of address = tcp_with (before_first address b':') (port_of (after_first address b':'))

unfoldable pub unix_of : Text → Connection
unix_of address = record {
  scheme = unix_local_socket;
  host = [];
  path = address;
  port = negsuc 0;
  is_ok = not (is_empty address);
}

port_of-to_string : (s : Text) (n : ℕ) → s ≢ [] → atol s ≡ pos n → port_of s ≡ pos n
unfolding port_of
port_of-to_string [] n h e = absurd (h refl)
port_of-to_string (c ∷ s) n h e = e

tcp_with-named :
    (host : Text) (port : ℕ)
    → host ≢ []
    → tcp_with host (pos port)
      ≡ record { scheme = tcp; host = host; path = []; port = pos port; is_ok = true }
unfolding tcp_with
tcp_with-named [] port h = absurd (h refl)
tcp_with-named (c ∷ s) port h = refl

tcp_of-address :
    (host : Text) (port : ℕ)
    → host ≢ []
    → Lacks b':' host
    → tcp_of (host ++ b':' ∷ to_string port)
      ≡ record { scheme = tcp; host = host; path = []; port = pos port; is_ok = true }
unfolding tcp_of
tcp_of-address host port n l =
    ap (λ h. tcp_with h (port_of (after_first (host ++ b':' ∷ to_string port) b':')))
      (before_first_lem b':' host (to_string port) l)
    ∙ ap (λ s. tcp_with host (port_of s)) (after_first_lem b':' host (to_string port) l)
    ∙ ap (tcp_with host)
        (port_of-to_string (to_string port) port (to_string-ne-nil port) (atol-to_string port))
    ∙ tcp_with-named host port n

unix_of-path :
    (path : Text)
    → path ≢ []
    → unix_of path
      ≡ record { scheme = unix_local_socket; host = []; path = path; port = negsuc 0; is_ok = true }
unfolding unix_of
unix_of-path [] h = absurd (h refl)
unix_of-path (c ∷ s) h = refl

-- `substr` is `wxString::substr` with a start; `is_windows` says that _WIN32 is defined.
module _ (substr : Text → ℕ → Text) (is_windows : Bool) where
  -- `DoParse`
  unfoldable pub do_parse : Text → Connection
  unfolding tcp_of unix_of
  do_parse str =
      let protocol = before_first str b':' in
      let address = substr (after_first str b':') 2 in
      if text_eq protocol (codes "tcp")
      then tcp_of address
      else if text_eq protocol (codes "unix")
      then if is_windows then unparsed else unix_of address
      else unparsed

  -- What `substr` is documented to do from a position within the text.
  abbrev pub IsSubstr : Type 0
  IsSubstr = (s : Text) (n : ℕ) → n ≤ length s → substr s n ≡ drop n s

  -- Where `substr` behaves as documented, an address of both a host, not empty and without a
  -- colon, and a port below 2^31 is parsed to that host and that port and is OK.
  pub do_parse-tcp :
      (host : Text) (port : ℕ)
      → port < 0x80000000
      → IsSubstr
      → host ≢ []
      → Lacks b':' host
      → do_parse (codes "tcp://" ++ (host ++ b':' ∷ to_string port))
        ≡ record { scheme = tcp; host = host; path = []; port = pos port; is_ok = true }
  unfolding do_parse before_first after_first before_at after_at find_char text_eq
  do_parse-tcp host port within law n l =
      ap tcp_of (law (codes "//" ++ (host ++ b':' ∷ to_string port)) 2 (omega arith))
      ∙ tcp_of-address host port n l

  -- Where `substr` behaves as documented, an address of a local socket with a path that is not
  -- empty is parsed to that path, colons included, and is OK, unless _WIN32 is defined, where nothing
  -- is parsed.
  pub do_parse-unix :
      (path : Text)
      → IsSubstr
      → path ≢ []
      → do_parse (codes "unix://" ++ path) ≡ (
          if is_windows then unparsed else record {
            scheme = unix_local_socket;
            host = [];
            path = path;
            port = negsuc 0;
            is_ok = true;
          })
  unfolding do_parse before_first after_first before_at after_at find_char text_eq
  do_parse-unix path law n =
      ap (λ c. if is_windows then unparsed else c)
        (ap unix_of (law (codes "//" ++ path) 2 (omega arith)) ∙ unix_of-path path n)
