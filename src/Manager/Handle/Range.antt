-- ===== src/Manager/Handle/Range.antt =====
-- sharelib/ProtocolMng.cpp: the parts of a message that `processVersion2` reads.
use mathlib.Core.Path.{subst}
use octopusd.Prelude.{
  ℕ, ◌≢◌, ◌≤◌, Bool, true, false, List, [], ◌∷◌, Option, none, some, arith, ◌==◌, length,
  either_way,
}
use octopusd.Prelude.Bytes.{Bytes}
use octopusd.Manager.{Manager, HandlerEnv}
use octopusd.Manager.Handle.{
  Handled, silent, out_of_range, endless, replies, updated, clone_answer, cloned, mobile_written,
  mobile_updated, show_stat, show_any, handle_common_cfg, handle_site_cfg, handle_mobile_cfg,
  handle_log_trace, handle_show_q, unknown_type, handle, process_version2, is_type,
  protocol_search_tree, protocol_log_trace, protocol_show_q_info, protocol_common_cfg,
  protocol_site_cfg, protocol_mobile_cfg,
}
use octopusd.Manager.Clone.{clone_site_cfg}

-- No part is read that is not there.
abbrev InRange : Handled → Type 0
InRange silent = Unit {0}
InRange out_of_range = ⊥
InRange endless = Unit {0}
InRange (replies m l fwd) = Unit {0}

clone_answer-InRange :
    (env : HandlerEnv) (by : Bytes) (o : Option (Bool × Manager)) → InRange (clone_answer env by o)
unfolding clone_answer
clone_answer-InRange env by none = tt
clone_answer-InRange env by (some (false, m)) = tt
clone_answer-InRange env by (some (true, m)) = tt

mobile_written-InRange :
    (env : HandlerEnv) (flag : Bytes) (rest : List Bytes) (r : Bool × Manager)
    → InRange (mobile_written env (flag ∷ rest) r)
unfolding mobile_written
mobile_written-InRange env flag rest (false, m) = tt
mobile_written-InRange env flag rest (true, m) = tt

module _ (env : HandlerEnv) (first a b : Bytes) (rest : List Bytes) (m : Manager) where
  handle_common_cfg-InRange : InRange (handle_common_cfg env first (a ∷ b ∷ rest) m)
  unfolding handle_common_cfg updated
  handle_common_cfg-InRange =
      either_way InRange (is_type first 0) tt (either_way InRange (is_type first 1) tt tt)

  handle_site_cfg-InRange : InRange (handle_site_cfg env first (a ∷ b ∷ rest) m)
  unfolding handle_site_cfg updated cloned
  handle_site_cfg-InRange = either_way InRange (is_type first 0) tt (
      either_way InRange (is_type first 1) tt (
        either_way InRange (is_type first 2) (clone_answer-InRange env a (clone_site_cfg env a b m))
          tt))

  handle_mobile_cfg-InRange : InRange (handle_mobile_cfg env first (a ∷ b ∷ rest) m)
  unfolding handle_mobile_cfg mobile_updated
  handle_mobile_cfg-InRange =
      either_way InRange (is_type first 0) tt
        (either_way InRange (is_type first 1) (mobile_written-InRange env b rest _) tt)

  handle_log_trace-InRange : InRange (handle_log_trace env first (a ∷ b ∷ rest) m)
  unfolding handle_log_trace show_stat show_any
  handle_log_trace-InRange = either_way InRange (is_type first 0) tt (
      either_way InRange (is_type first 1) tt (
        either_way InRange (is_type first 2) tt
          (either_way InRange (is_type first 3) tt (either_way InRange (is_type first 4) tt tt))))

  handle_show_q-InRange : InRange (handle_show_q env first m)
  unfolding handle_show_q
  handle_show_q-InRange =
      either_way InRange (is_type first 0) tt
        (either_way InRange (is_type first 1) tt (either_way InRange (is_type first 2) tt tt))

  handle-InRange : (type : ℕ) → InRange (handle env type first (a ∷ b ∷ rest) m)
  unfolding handle unknown_type
  handle-InRange type = either_way InRange (type == protocol_search_tree) tt (
      either_way InRange (type == protocol_common_cfg) handle_common_cfg-InRange (
        either_way InRange (type == protocol_site_cfg) handle_site_cfg-InRange (
          either_way InRange (type == protocol_mobile_cfg) handle_mobile_cfg-InRange (
            either_way InRange (type == protocol_log_trace) handle_log_trace-InRange
              (either_way InRange (type == protocol_show_q_info) handle_show_q-InRange tt)))))

process_version2-InRange :
    (env : HandlerEnv) (type : ℕ) (parts : List Bytes) (m : Manager)
    → 3 ≤ length parts
    → InRange (process_version2 env type parts m)
unfolding process_version2
process_version2-InRange env type [] m h = absurd (omega arith)
process_version2-InRange env type (a ∷ []) m h = absurd (omega arith)
process_version2-InRange env type (a ∷ b ∷ []) m h = absurd (omega arith)
process_version2-InRange env type (a ∷ b ∷ c ∷ rest) m h = handle-InRange env a b c rest m type

-- A message of three parts or more, whatever they hold and whatever its type is, is handled
-- without reading a part that it does not have.
pub process_version2-ne-out_of_range :
    (env : HandlerEnv) (type : ℕ) (parts : List Bytes) (m : Manager)
    → 3 ≤ length parts
    → process_version2 env type parts m ≢ out_of_range
process_version2-ne-out_of_range env type parts m h e =
    subst InRange e (process_version2-InRange env type parts m h)
