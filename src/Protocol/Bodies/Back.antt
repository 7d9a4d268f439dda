-- ===== src/Protocol/Bodies/Back.antt =====
-- The parts of the bodies of Protocol/Bodies, read back from what is written.
use debugger_dap.Common.{
  zero, suc, ◌≡◌, refl, ap, sym, ◌∙◌, Bool, true, false, List, [], ◌∷◌, String, map, none, some,
  arith, All, All-mono, if◌then◌else◌,
}
use debugger_dap.Common.Int.{ℤ, pos, negsuc, ◌≤ℤ◌}
use debugger_dap.Text.{Text, codes, text_eq}
use debugger_dap.Text.Find.{text_eq_refl}
use debugger_dap.Json.{
  Node, Json, nil, bool, add, child, find_field, append_field, create_array, read_items, get_bool,
  get_integer,
}
use debugger_dap.Json.Strings.{
  Encoding, EncodingLaws, IsPlain, string_to, string_from, strings_from, string_back,
}
use debugger_dap.Protocol.Requests.{
  add_all, add_items, Source, source_to, path_properties, reference_properties,
}
use debugger_dap.Protocol.Bodies.{
  Response, response_to, response_from, source_from, Thread, thread_to, thread_from, StackFrame,
  stack_frame_to, stack_frame_from, Scope, scope_to, scope_from, PresentationHint, Variable,
  strings_to, hint_to, hint_from, variable_to, variable_from, Breakpoint, breakpoint_to,
  breakpoint_from, list_response_to, list_response_from,
}
use debugger_dap.Protocol.Bodies.Items.{append_items, add_items-array, read_items-add_items}

pub get_bool_lem : (b : Bool) → get_bool (some (bool b)) false ≡ b
unfolding get_bool
get_bool_lem true = refl
get_bool_lem false = refl

-- The texts of what is written are plain, and a reference is not negative.
abbrev pub IsFaithfulResponse : Response → Type 0
IsFaithfulResponse r = IsPlain r.type × IsPlain r.message × IsPlain r.command

abbrev pub IsFaithfulSource : Source → Type 0
IsFaithfulSource source =
    (pos 0 ≤ℤ source.source_reference) × IsPlain source.name × IsPlain source.path

abbrev pub IsFaithfulThread : Thread → Type 0
IsFaithfulThread t = IsPlain t.name

abbrev pub IsFaithfulFrame : StackFrame → Type 0
IsFaithfulFrame f =
    IsFaithfulSource f.source × IsPlain f.name × IsPlain f.instruction_pointer_reference

abbrev pub IsFaithfulScope : Scope → Type 0
IsFaithfulScope s = IsPlain s.name

abbrev IsFaithfulHint : PresentationHint → Type 0
IsFaithfulHint h = IsPlain h.kind × IsPlain h.visibility × All IsPlain h.attributes

abbrev pub IsFaithfulVariable : Variable → Type 0
IsFaithfulVariable v =
    IsFaithfulHint v.presentation_hint × IsPlain v.name × IsPlain v.value × IsPlain v.type

abbrev pub IsFaithfulBreakpoint : Breakpoint → Type 0
IsFaithfulBreakpoint b = IsFaithfulSource b.source × IsPlain b.message

map-some :
    {A : Type 0} (to : A → Node) (from : Json → A) (xs : List A)
    → All (λ a. from (some (to a)) ≡ a) xs
    → map from (map some (map to xs)) ≡ xs
map-some to from [] back = refl
map-some to from (x ∷ xs) back =
    ap (λ y. y ∷ map from (map some (map to xs))) back.0 ∙ ap (◌∷◌ x) (map-some to from xs back.1)

module _ (encoding : Encoding) (laws : EncodingLaws encoding) where
  back : (s : Text) → IsPlain s → string_from encoding (some (string_to encoding s)) [] ≡ s
  back s h = string_back encoding laws s h

  response_from_lem :
      (name : String) (r : Response) (nodes : List Node)
      → IsFaithfulResponse r
      → response_from encoding (some (list_response_to encoding name r nodes)) ≡ r
  unfolding response_from list_response_to response_to add_all add append_field child find_field
      get_integer text_eq
  response_from_lem name r nodes (ht, hm, hc) = λ i. record {
    seq = r.seq;
    type = back r.type ht i;
    request_seq = r.request_seq;
    success = get_bool_lem r.success i;
    message = back r.message hm i;
    command = back r.command hc i;
  }

  list_response_lem :
      (name : String) (r : Response) (nodes : List Node)
      → list_response_from encoding name (some (list_response_to encoding name r nodes))
        ≡ map some nodes
  unfolding list_response_from list_response_to response_to add_all add append_field child
      find_field text_eq
  list_response_lem name r nodes =
      ap (λ b. read_items (if b then some (add_items create_array nodes) else none))
        (text_eq_refl (codes name))
      ∙ read_items-add_items nodes

  source_back :
      (name path : Text) (reference : ℤ)
      → pos 0 ≤ℤ reference
      → IsPlain name
      → IsPlain path
      → source_from encoding (
          some (
            source_to
              (string_to encoding)
              (record { name = name; path = path; source_reference = reference })))
        ≡ record { name = name; path = path; source_reference = reference }
  unfolding source_from source_to path_properties reference_properties add_all add append_field
      child find_field get_integer text_eq
  source_back name [] (pos zero) h n p =
      λ i. record { name = back name n i; path = []; source_reference = pos 0 }
  source_back name [] (pos (suc k)) h n p =
      λ i. record { name = back name n i; path = []; source_reference = pos (suc k) }
  source_back name (c ∷ path) (pos zero) h n p =
      λ i. record { name = back name n i; path = back (c ∷ path) p i; source_reference = pos 0 }
  source_back name (c ∷ path) (pos (suc k)) h n p = λ i. record {
    name = back name n i;
    path = back (c ∷ path) p i;
    source_reference = pos (suc k);
  }
  source_back name path (negsuc k) h n p = absurd (omega arith)

  faithful_source_back :
      (source : Source)
      → IsFaithfulSource source
      → source_from encoding (some (source_to (string_to encoding) source)) ≡ source
  faithful_source_back source (h, n, p) =
      source_back source.name source.path source.source_reference h n p

  pub thread_back :
      (t : Thread) → IsFaithfulThread t → thread_from encoding (some (thread_to encoding t)) ≡ t
  unfolding thread_from thread_to add_all add append_field child find_field get_integer text_eq
  thread_back t h = λ i. record { id = t.id; name = back t.name h i }

  pub stack_frame_back :
      (f : StackFrame)
      → IsFaithfulFrame f
      → stack_frame_from encoding (some (stack_frame_to encoding f)) ≡ f
  unfolding stack_frame_from stack_frame_to add_all add append_field child find_field get_integer
      text_eq
  stack_frame_back f (h, n, p) = λ i. record {
    id = f.id;
    name = back f.name n i;
    source = faithful_source_back f.source h i;
    line = f.line;
    instruction_pointer_reference = back f.instruction_pointer_reference p i;
  }

  pub scope_back :
      (s : Scope) → IsFaithfulScope s → scope_from encoding (some (scope_to encoding s)) ≡ s
  unfolding scope_from scope_to add_all add append_field child find_field get_integer text_eq
  scope_back s h = λ i. record {
    name = back s.name h i;
    variables_reference = s.variables_reference;
    expensive = get_bool_lem s.expensive i;
  }

  strings_back :
      (strings : List Text)
      → All IsPlain strings
      → strings_from encoding (some (strings_to encoding strings)) ≡ strings
  unfolding strings_from strings_to append_items
  strings_back strings h =
      let nodes = map (string_to encoding) strings in
      ap (λ a. strings_from encoding (some a)) (add_items-array nil nodes)
      ∙ ap (map (λ value. string_from encoding value [])) (
          ap (λ a. read_items (some a)) (sym (add_items-array nil nodes))
          ∙ read_items-add_items nodes)
      ∙ map-some (string_to encoding) (λ value. string_from encoding value []) strings
          (All-mono IsPlain (λ s. string_from encoding (some (string_to encoding s)) [] ≡ s) back
            strings h)

  hint_back :
      (h : PresentationHint) → IsFaithfulHint h → hint_from encoding (some (hint_to encoding h)) ≡ h
  unfolding hint_from hint_to add_all add append_field child find_field get_integer text_eq
  hint_back h (k, v, a) = λ i. record {
    kind = back h.kind k i;
    visibility = back h.visibility v i;
    attributes = strings_back h.attributes a i;
  }

  pub variable_back :
      (v : Variable)
      → IsFaithfulVariable v
      → variable_from encoding (some (variable_to encoding v)) ≡ v
  unfolding variable_from variable_to add_all add append_field child find_field get_integer text_eq
  variable_back v (h, n, w, t) = λ i. record {
    name = back v.name n i;
    value = back v.value w i;
    type = back v.type t i;
    variables_reference = v.variables_reference;
    presentation_hint = hint_back v.presentation_hint h i;
  }

  pub breakpoint_back :
      (b : Breakpoint)
      → IsFaithfulBreakpoint b
      → breakpoint_from encoding (some (breakpoint_to encoding b)) ≡ b
  unfolding breakpoint_from breakpoint_to add_all add append_field child find_field get_integer
      text_eq
  breakpoint_back b (h, m) = λ i. record {
    id = b.id;
    verified = get_bool_lem b.verified i;
    message = back b.message m i;
    source = faithful_source_back b.source h i;
    line = b.line;
    column = b.column;
    end_line = b.end_line;
    end_column = b.end_column;
  }

  -- Reading the response and the items of its array.
  pub list_back :
      {A : Type 0} (name : String) (to : A → Node) (from : Json → A) (r : Response) (xs : List A)
      → IsFaithfulResponse r
      → All (λ a. from (some (to a)) ≡ a) xs
      → ◌≡◌ {A = Response × List A}
          (
            response_from encoding (some (list_response_to encoding name r (map to xs))),
            map from (
                list_response_from encoding name
                  (some (list_response_to encoding name r (map to xs)))),
          )
          (r, xs)
  list_back name to from r xs h items = λ i. (
    response_from_lem name r (map to xs) h i,
    (ap (map from) (list_response_lem name r (map to xs)) ∙ map-some to from xs items) i,
  )
