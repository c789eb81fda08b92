-- ===== src/Action/Parsing.antt =====
-- Names of actions are read back as the actions that they name.
use tale.Prelude.{◌≡◌, ◌↔◌, ◌∙◌, ap, refl, some, Text, codes, text_eq, text_eq_iff, find_passes}
use tale.Action.Id.{ActionId, app_quit, declared}
use tale.Action.Names.{as_str, parse}

-- The name of every action, the hidden ones included, parses to that action.
pub parse-as_str : (a : ActionId) → parse (codes (as_str a)) ≡ some a
unfolding parse as_str text_eq
parse-as_str app_quit = refl
parse-as_str _ = refl

-- Only the name of an action parses to it.
pub parse_sound : (value : Text) (a : ActionId) → parse value ≡ some a → value ≡ codes (as_str a)
unfolding parse
parse_sound value a h =
    (text_eq_iff _ _).0 (find_passes (λ x. text_eq value (codes (as_str x))) declared a h)

-- A text parses to an action, the hidden ones included, exactly if it is the name of that action.
pub parse_iff : (value : Text) (a : ActionId) → (parse value ≡ some a) ↔ (value ≡ codes (as_str a))
parse_iff value a = (parse_sound value a, λ e. ap parse e ∙ parse-as_str a)
