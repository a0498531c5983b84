-- ===== src/Core/Privacy.antt =====
-- crates/agbox-core/src/privacy.rs: who speaks, and what may leave the machine. The scan that
-- removes secrets is not modelled: a `RedactedText` here is what it returns.
use agbox.Common.{ℕ, Bool, true, false, ◌==◌, ◌≡◌, refl, arith}
use agbox.Core.Base.{Text}

pub data PrivacyLabel : Type 0 where
  restricted_local private_local derived_local sync_eligible : PrivacyLabel

pub data Authority : Type 0 where
  model_inference agent_statement observed_state tool_result human_intent : Authority

-- The derived order of the variants.
abbrev pub authority_rank : Authority → ℕ
authority_rank model_inference = 0
authority_rank agent_statement = 1
authority_rank observed_state = 2
authority_rank tool_result = 3
authority_rank human_intent = 4

pub data DisclosureClass : Type 0 where
  human_intent agent_statement observed_state tool_result reasoning system_instruction
        developer_instruction derived_text :
      DisclosureClass

pub DisclosureClass-discrete : Discrete DisclosureClass
DisclosureClass-discrete = hlevel

unfoldable pub is_transferable : DisclosureClass → Bool
is_transferable reasoning = false
is_transferable system_instruction = false
is_transferable developer_instruction = false
is_transferable _ = true

unfoldable pub may_define_instruction : Authority → Bool
may_define_instruction human_intent = true
may_define_instruction _ = false

-- `==` on classes.
abbrev pub class_code : DisclosureClass → ℕ
class_code human_intent = 0
class_code agent_statement = 1
class_code observed_state = 2
class_code tool_result = 3
class_code reasoning = 4
class_code system_instruction = 5
class_code developer_instruction = 6
class_code derived_text = 7

pub record RedactedText : Type 0 where
  pub value : Text
  pub redactions : ℕ
  pub disclosure_class : DisclosureClass

abbrev pub same_class : DisclosureClass → DisclosureClass → Bool
same_class a b = class_code a == class_code b

pub same_class-eq : (a b : DisclosureClass) → same_class a b ≡ true → a ≡ b
same_class-eq a b h = ground arith

pub same_class_self : (a : DisclosureClass) → same_class a a ≡ true
same_class_self human_intent = refl
same_class_self _ = refl
