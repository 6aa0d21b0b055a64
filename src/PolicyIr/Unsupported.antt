-- ===== src/PolicyIr/Unsupported.antt =====
-- internal/policyir/unsupported.go: the forms of the language that the agent cannot execute yet.
use qubership_authz_agent.Base.{
  Bytes, List, [], ◌∷◌, codes, contains, contains_iff, is_empty, is_empty-false_iff, not, Check,
  Passes, fail_if, ◌>>◌, In, ◌≢◌, ◌↔◌, arith,
}

-- A name of a form, any string: `forms` holds those that are known.
abbrev pub Form : Type 0
Form = Bytes

abbrev pub form_json_path : Form
form_json_path = codes "jsonpath"

abbrev pub form_syntax : Form
form_syntax = codes "syntax"

abbrev pub form_nested_iterate : Form
form_nested_iterate = codes "nested-iterate"

abbrev pub form_pip_extension : Form
form_pip_extension = codes "pip-extension"

pub forms : List Form
forms = form_json_path ∷ form_syntax ∷ form_nested_iterate ∷ form_pip_extension ∷ []

pub record Unsupported : Type 0 where
  pub form : Form
  pub text : Bytes

pub data UnsupportedError : Type 0 where
  unknown_form : Form → UnsupportedError
  no_source_text : UnsupportedError

unfoldable pub validate_unsupported : Unsupported → Check UnsupportedError
unfolding forms
validate_unsupported u = do
  fail_if (not (contains forms u.form)) (unknown_form u.form)
  fail_if (is_empty u.text) no_source_text

-- A form the package declares, with the text it stands for.
pub record IsValidUnsupported (u : Unsupported) : Type 0 where
  pub known : In u.form forms
  pub quoted : u.text ≢ []

pub validate_unsupported_iff :
    (u : Unsupported) → Passes (validate_unsupported u) ↔ IsValidUnsupported u
unfolding validate_unsupported
validate_unsupported_iff u = (
  λ h. record {
    known = (contains_iff forms u.form).0 (ground arith);
    quoted = (is_empty-false_iff u.text).0 (ground arith);
  },
  λ v.
      ground (arith, (contains_iff forms u.form).1 v.known, (is_empty-false_iff u.text).1 v.quoted),
)
