-- ===== src/Router/Types.antt =====
-- packages/core/src/router.ts: routes, the nodes of the tree and the router's state, with
-- `RouteMethod` and `InternalRoute` of packages/core/src/types.ts.
use celsian.Base.{
  zero, suc, ℕ, ◌≡◌, refl, ap, sym, ◌∙◌, Bool, Option, Text, HasEq, nat_beq, nat_beq_iff,
}
use celsian.Map.{Map}

pub data RouteMethod : Type 0 where
  http_get http_head http_post http_put http_patch http_delete http_options : RouteMethod

abbrev method_code : RouteMethod → ℕ
method_code http_get = 0
method_code http_head = 1
method_code http_post = 2
method_code http_put = 3
method_code http_patch = 4
method_code http_delete = 5
method_code http_options = 6

abbrev method_of : ℕ → RouteMethod
method_of zero = http_get
method_of (suc zero) = http_head
method_of (suc (suc zero)) = http_post
method_of (suc (suc (suc zero))) = http_put
method_of (suc (suc (suc (suc zero)))) = http_patch
method_of (suc (suc (suc (suc (suc zero))))) = http_delete
method_of (suc (suc (suc (suc (suc (suc n)))))) = http_options

method_of-method_code : (m : RouteMethod) → method_of (method_code m) ≡ m
method_of-method_code http_get = refl
method_of-method_code http_head = refl
method_of-method_code http_post = refl
method_of-method_code http_put = refl
method_of-method_code http_patch = refl
method_of-method_code http_delete = refl
method_of-method_code http_options = refl

pub method_code-injective : (a b : RouteMethod) → method_code a ≡ method_code b → a ≡ b
method_code-injective a b e =
    sym (method_of-method_code a) ∙ ap method_of e ∙ method_of-method_code b

instance abbrev pub method_eq : HasEq RouteMethod
method_eq = record {
  beq = λ a b. nat_beq (method_code a) (method_code b);
  beq_iff = λ a b. (
    λ h. method_code-injective a b ((nat_beq_iff (method_code a) (method_code b)).0 h),
    λ e. (nat_beq_iff (method_code a) (method_code b)).1 (ap method_code e),
  );
}

-- `handler` stands for all that the router hands on unread: the handler, the kind, the schema, the
-- documentation and the hooks.
pub record InternalRoute (H : Type 0) : Type 0 where
  pub method : RouteMethod
  pub url : Text
  pub handler : H

mutual
  -- A segment, the children of fixed segments, the parameter child and the wildcard child, each
  -- with its name, and the routes that end here.
  pub data RadixNode (H : Type 0) : Type 0 where
    radix_node :
        Text → Children H → Slot H → Slot H → Map RouteMethod (InternalRoute H) → RadixNode H

  pub data Children (H : Type 0) : Type 0 where
    leaf : Children H
    branch : Text → RadixNode H → Children H → Children H

  pub data Slot (H : Type 0) : Type 0 where
    vacant : Slot H
    taken : Text → RadixNode H → Slot H

pub record RouterOptions : Type 0 where
  pub ignore_trailing_slash : Option Bool
  pub strict_params : Option Bool

pub record Router (H : Type 0) : Type 0 where
  pub root : RadixNode H
  pub static_routes : Map Text (Map RouteMethod (InternalRoute H))
  pub ignore_trailing_slash : Bool
  pub strict_params : Bool
