-- ===== src/Soap/Action.antt =====
-- pkg/soap/action.go: the action that a SoapAction header names.
use godlna.Base.{
  ℕ, Text, codes, List, [], ◌∷◌, ◌++◌, Option, none, some, ◌≡◌, ◌≢◌, ◌↔◌, arith, split, trim,
  split-cons, split_one, join_byte, join-split, split-Lacks, Bool, nat_beq, ◌||◌, ◌&&◌, not,
  text_beq, text_beq_iff, if◌then◌else◌, Lacks, All,
}

pub record Action : Type 0 where
  pub service_type : Text
  pub name : Text

-- `strings.Trim(header, " \"")`
header_cut : ℕ → Bool
header_cut c = nat_beq c b' ' || nat_beq c b'"'

unfoldable pub trimmed : Text → Text
unfolding header_cut
trimmed header = trim header_cut header

from_parts : List Text → Option Action
from_parts [] = none
from_parts (st ∷ []) = none
from_parts (st ∷ name ∷ []) =
    if not (text_beq st []) && not (text_beq name [])
    then some (record { service_type = st; name = name })
    else none
from_parts (st ∷ name ∷ more ∷ ps) = none

unfoldable pub detect_action : Text → Option Action
unfolding from_parts trimmed
detect_action header = from_parts (split (trimmed header) (codes "#"))

-- What the trimmed header has to be: the two names joined by the only `#`.
pub record Names (header : Text) (a : Action) : Type 0 where
  pub joined : trimmed header ≡ a.service_type ++ b'#' ∷ a.name
  pub service_named : a.service_type ≢ []
  pub action_named : a.name ≢ []
  pub service_plain : Lacks b'#' a.service_type
  pub action_plain : Lacks b'#' a.name

from_parts-Names :
    (header : Text) (ps : List Text) (a : Action)
    → join_byte b'#' ps ≡ trimmed header
    → All (Lacks b'#') ps
    → from_parts ps ≡ some a
    → Names header a
unfolding from_parts
from_parts-Names header [] a j l h = cc
from_parts-Names header (st ∷ []) a j l h = cc
from_parts-Names header (st ∷ name ∷ []) a j l h =
    ground (arith, text_beq_iff st [], text_beq_iff name [])
from_parts-Names header (st ∷ name ∷ more ∷ ps) a j l h = cc

-- An action is detected exactly when the header, less blanks and quotes at its ends, is a service type and an
-- action name with one `#` between them, neither of them empty.
pub detect_action_iff :
    (header : Text) (a : Action) → (detect_action header ≡ some a) ↔ Names header a
unfolding detect_action
detect_action_iff header a = (
  from_parts-Names header (split (trimmed header) (codes "#")) a (join-split b'#' (trimmed header))
      (split-Lacks b'#' (trimmed header)),
  λ n.
      rw
        (
          n.joined,
          split-cons b'#' [] a.service_type a.name n.service_plain,
          split_one b'#' [] a.name n.action_plain,
        )
        (unfold from_parts in
          ground (
            arith,
            text_beq_iff a.service_type [],
            text_beq_iff a.name [],
            n.service_named,
            n.action_named,
          )),
)
