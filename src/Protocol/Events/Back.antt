-- ===== src/Protocol/Events/Back.antt =====
-- The events of Protocol/Events, read back from what is written.
use debugger_dap.Common.{
  ◌≡◌, ◌≢◌, refl, ap, ◌∙◌, true, false, List, [], ◌∷◌, Option, none, some, String, if◌then◌else◌,
}
use debugger_dap.Common.Int.{ℤ}
use debugger_dap.Text.{Text, codes, text_eq}
use debugger_dap.Json.{Json, child, find_field, append_field, add, get_integer, get_bool}
use debugger_dap.Json.Strings.{Encoding, EncodingLaws, IsPlain, until_nul, string_from, string_back}
use debugger_dap.Protocol.Requests.{Property, add_all}
use debugger_dap.Protocol.Bodies.Back.{IsFaithfulBreakpoint, get_bool_lem, breakpoint_back}
use debugger_dap.Protocol.Events.{
  EventBody, initialized, stopped, continued, exited, terminated, thread, output, breakpoint,
  process, exited_from, thread_event_from, output_from, breakpoint_event_from, module_event_from,
  waiting_for_server_from, stopped_from, continued_from, process_from, modules, waiting_for_server,
  Module, module_to, module_id, module_from, event_name, event_head, with_body, body_properties,
  body_from, event_to, event_from, stopped_text,
}

abbrev pub IsFaithfulModule : Module → Type 0
IsFaithfulModule m =
    IsPlain m.id
    × IsPlain m.name
    × IsPlain m.path
    × IsPlain m.version
    × IsPlain m.symbol_status
    × IsPlain m.symbol_file_path
    × IsPlain m.date_time_stamp
    × IsPlain m.address_range

-- What an event must have for `From` to give it back.
abbrev pub IsFaithful : EventBody → Type 0
IsFaithful (stopped reason words description _ _) =
    (words ≢ []) × IsPlain reason × IsPlain words × IsPlain description
IsFaithful (thread reason _) = IsPlain reason
IsFaithful (output category words) = IsPlain category × IsPlain words
IsFaithful (breakpoint reason b) = IsFaithfulBreakpoint b × IsPlain reason
IsFaithful (process name _ is_local method _) = (is_local ≡ true) × IsPlain name × IsPlain method
IsFaithful (modules reason m) = IsFaithfulModule m × IsPlain reason
IsFaithful (waiting_for_server host _) = IsPlain host
IsFaithful _ = Unit

event_name-IsPlain : (e : EventBody) → IsPlain (codes (event_name e))
unfolding event_name
event_name-IsPlain initialized = refl
event_name-IsPlain (stopped _ _ _ _ _) = refl
event_name-IsPlain (continued _ _) = refl
event_name-IsPlain (exited _) = refl
event_name-IsPlain terminated = refl
event_name-IsPlain (thread _ _) = refl
event_name-IsPlain (output _ _) = refl
event_name-IsPlain (breakpoint _ _) = refl
event_name-IsPlain (process _ _ _ _ _) = refl
event_name-IsPlain (modules _ _) = refl
event_name-IsPlain (waiting_for_server _ _) = refl

module _ (encoding : Encoding) (laws : EncodingLaws encoding) (print : Json → Text)
    (decimal : ℤ → Text) where
  plain : (s : Text) → IsPlain s → encoding.from_locale (until_nul (encoding.to_utf8 s)) ≡ s
  plain s h = string_back encoding laws s h

  head_name :
      (seq : ℤ) (name : String) (o : Option (List Property))
      → IsPlain (codes name)
      → string_from encoding
          (child (some (with_body (event_head encoding seq name) o)) (codes "event"))
          []
        ≡ codes name
  unfolding event_head with_body add_all add append_field child find_field text_eq
  head_name seq name none h = plain (codes name) h
  head_name seq name (some properties) h = plain (codes name) h

  head_type :
      (seq : ℤ) (name : String) (o : Option (List Property))
      → string_from encoding
          (child (some (with_body (event_head encoding seq name) o)) (codes "type"))
          []
        ≡ codes "event"
  unfolding event_head with_body add_all add append_field child find_field text_eq
  head_type seq name none = plain (codes "event") refl
  head_type seq name (some properties) = plain (codes "event") refl

  module_back :
      (m : Module)
      → IsFaithfulModule m
      → module_from encoding print decimal (some (module_to encoding m)) ≡ m
  unfolding module_from module_id module_to add_all add append_field child find_field get_integer
      get_bool text_eq
  module_back m (id, name, path, version, status, symbols, stamp, range) = λ i. record {
    id = plain m.id id i;
    name = plain m.name name i;
    path = plain m.path path i;
    version = plain m.version version i;
    symbol_status = plain m.symbol_status status i;
    symbol_file_path = plain m.symbol_file_path symbols i;
    date_time_stamp = plain m.date_time_stamp stamp i;
    address_range = plain m.address_range range i;
    is_optimized = get_bool_lem m.is_optimized i;
    is_user_code = get_bool_lem m.is_user_code i;
  }

  -- `From` of the class of an event.
  body_back :
      (seq : ℤ) (e : EventBody)
      → IsFaithful e
      → body_from encoding print decimal (codes (event_name e)) (some (event_to encoding seq e))
        ≡ some e
  unfolding body_from exited_from thread_event_from output_from breakpoint_event_from
      module_event_from waiting_for_server_from stopped_from continued_from process_from event_to
      event_head event_name with_body body_properties add_all add append_field child find_field
      get_integer get_bool text_eq
  body_back seq initialized h = refl
  body_back seq (stopped reason [] description all_threads thread_id) h = absurd (h.0 refl)
  body_back seq (stopped reason (c ∷ words) description all_threads thread_id) (_, r, w, d) =
      let tree : Json =
        some
          (event_to encoding seq (stopped reason (c ∷ words) description all_threads thread_id)) in
      λ i. some (
        stopped (plain reason r i) (stopped_text print tree (plain (c ∷ words) w i))
          (plain description d i) (get_bool_lem all_threads i) thread_id)
  body_back seq (continued thread_id all_threads) h =
      ap (λ b. some (continued thread_id b)) (get_bool_lem all_threads)
  body_back seq (exited exit_code) h = refl
  body_back seq terminated h = refl
  body_back seq (thread reason thread_id) h = ap (λ r. some (thread r thread_id)) (plain reason h)
  body_back seq (output category words) (c, w) =
      λ i. some (output (plain category c i) (plain words w i))
  body_back seq (breakpoint reason b) (h, r) =
      λ i. some (breakpoint (plain reason r i) (breakpoint_back encoding laws b h i))
  body_back seq (process name process_id true start_method pointer_size) (_, n, m) =
      λ i. some (process (plain name n i) process_id true (plain start_method m i) pointer_size)
  body_back seq (process name process_id false start_method pointer_size) h = absurd (cc h.0)
  body_back seq (modules reason m) (h, r) =
      λ i. some (modules (plain reason r i) (module_back m h i))
  body_back seq (waiting_for_server host port) h =
      ap (λ host. some (waiting_for_server host port)) (plain host h)

  -- Where the conversions leave texts of ASCII without NUL alone, and all texts of an event are such,
  -- reading the tree of the event gives back its class and the members of that class, where a stopped
  -- event has a text, no source has a negative reference and a process is local.
  pub event_round_trip :
      (seq : ℤ) (e : EventBody)
      → IsFaithful e
      → event_from encoding print decimal (some (event_to encoding seq e)) ≡ some e
  unfolding event_from event_to text_eq
  event_round_trip seq e h =
      let tree : Json = some (event_to encoding seq e) in
      let name = string_from encoding (child tree (codes "event")) [] in
      ap
        (λ type.
          if text_eq type (codes "event")
          then body_from encoding print decimal name tree
          else Option.none)
        (head_type seq (event_name e) (body_properties encoding e))
      ∙ ap (λ name. body_from encoding print decimal name tree)
          (head_name seq (event_name e) (body_properties encoding e) (event_name-IsPlain e))
      ∙ body_back seq e h
