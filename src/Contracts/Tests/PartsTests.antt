-- ===== src/Contracts/Tests/PartsTests.antt =====
-- The forwarder, the flags, the charges and the client's masks of the contracts at concrete inputs.
use Prim.Native.String.{String}
use on_chain_identity_gatewa.Common.{
  ℕ, ◌+◌, ◌≤◌, ◌==◌, ◌≡◌, refl, Bool, true, false, ◌&&◌, ◌||◌, List, [], ◌∷◌, ok, err, arith,
  length, some, any,
}
use on_chain_identity_gatewa.Contracts.{Address, put, Revert, checked_add}
use on_chain_identity_gatewa.Contracts.BitMask.{check_bit, set_bit}
use on_chain_identity_gatewa.Contracts.Context.{no_forwarders, msg_sender, msg_data}
use on_chain_identity_gatewa.Contracts.Forwarder.{
  ForwardRequest, Nonces, no_nonces, Transaction, Chain, verify_flexible_nonce, refund_excess_value,
  execute, run, forwarded_data, store_sig,
}
use on_chain_identity_gatewa.Contracts.Forwarder.Replay.{execute_once, verify_again}
use on_chain_identity_gatewa.Contracts.Forwarder.Sender.{msg_sender-forwarded_data}
use on_chain_identity_gatewa.Contracts.Flags
use on_chain_identity_gatewa.Contracts.Flags.{FlagsStorage, add_flags, add_flags_loop, insert_flag}
use on_chain_identity_gatewa.Contracts.Flags.Laws.{IsConsistent}
use on_chain_identity_gatewa.Contracts.Flags.Runs
use on_chain_identity_gatewa.Contracts.Flags.Answers.{
  Call, call_add_flags, call_remove_flag, call_add_flag,
}
use on_chain_identity_gatewa.Contracts.Flags.Runs.{Follows, run-initialize}
use on_chain_identity_gatewa.Contracts.Flags.Bounds.{add_flags_bound}
use on_chain_identity_gatewa.Contracts.Charges.{Charge, AccessControl, Payments, ChargeHandler}
use on_chain_identity_gatewa.Contracts.Charges.Spending
use on_chain_identity_gatewa.Contracts.Charges.Spending.{
  Key, allowance, call_charge, call_approve, run_spends, total_granted,
}
use on_chain_identity_gatewa.Contracts.Composed.{small, check_bit-add_flags_to_bitmask}
use on_chain_identity_gatewa.Ethereum.{erc20}
use on_chain_identity_gatewa.Ethereum.Utils.{add_flags_to_bitmask}

-- A chain on which every request is signed by its sender and every call succeeds.
abbrev chain : Chain Unit
chain = record {
  recover = λ req _. ok req.from_address;
  send_value = λ _ _ w. ok w;
  call = λ _ _ gas _ w. ok (gas, w);
}

abbrev request : (nonce : ℕ) → ForwardRequest
request nonce = record {
  from_address = 40;
  to_address = 70;
  value = 0;
  gas = 100;
  nonce = nonce;
  call_data = 1 ∷ 2 ∷ [];
}

abbrev tx : (nonce : ℕ) → String → Transaction
tx nonce sig = record {
  sender = 9;
  value = 0;
  block_number = 3;
  request = request nonce;
  signature = sig;
}

abbrev executed : Nonces × Unit {0}
executed = (
  store_sig 40 0 "s"
      (put 40 (record { current_nonce = 1; block = 3; sigs = λ _ _. false }) no_nonces),
  tt,
)

execute_once_example :
    (e : Revert) × (execute chain 80 10 (tx 0 "s") (run chain 80 10 (tx 1 "t" ∷ []) executed)
      ≡ err e)
unfolding execute verify_flexible_nonce refund_excess_value checked_add
execute_once_example =
    execute_once chain 80 10 (tx 0 "s") (tx 0 "s") (tx 1 "t" ∷ []) (no_nonces, tt) executed
      (omega arith) refl refl refl

-- A request of nonce 1 is accepted ahead of its nonce, and again after a request of nonce 0.
abbrev ahead : Nonces
ahead = store_sig 40 1 "t" no_nonces

verify_again_example :
    (((run chain 80 10 (tx 0 "s" ∷ []) (ahead, tt)).0 40).sigs 1 "t" ≡ true)
    × (t : Nonces) × (verify_flexible_nonce chain 80 10 5
          (request 1)
          "t"
          (run chain 80 10 (tx 0 "s" ∷ []) (ahead, tt)).0
        ≡ ok t)
unfolding run execute verify_flexible_nonce refund_excess_value checked_add
verify_again_example =
    verify_again chain 80 10 3 5 (request 1) "t" no_nonces ahead (tx 0 "s" ∷ []) tt refl refl
      (omega arith)

msg_sender-forwarded_data_example :
    (msg_sender
        (put 80 true no_forwarders)
        (record { sender = 80; data_bytes = forwarded_data (request 0) })
      ≡ 40)
    × (msg_data
          (put 80 true no_forwarders)
          (record { sender = 80; data_bytes = forwarded_data (request 0) })
        ≡ 1 ∷ 2 ∷ [])
msg_sender-forwarded_data_example =
    msg_sender-forwarded_data (put 80 true no_forwarders) 80 (request 0) refl (omega arith)

abbrev flags : FlagsStorage
flags = record {
  supported_flags = λ _. false;
  super_admin = 9;
  supported_flags_mask = 0;
  flag_indexes = λ _. 0;
}

abbrev flag_calls : List (Address × Call)
flag_calls =
    (9, call_add_flags (65 ∷ 66 ∷ []) (0 ∷ 1 ∷ []))
    ∷ (66, call_add_flag 67 2)
    ∷ (9, call_remove_flag 65)
    ∷ []

run-initialize_example : IsConsistent (Runs.run flag_calls flags) × Follows flag_calls flags
unfolding Flags.initialize
run-initialize_example =
    run-initialize 9 flags flag_calls refl
      ((omega arith, (omega arith, tt)), (omega arith, (tt, tt)))

abbrev flagged : FlagsStorage
flagged = record flags {
  flag_indexes = put 65 3 flags.flag_indexes;
  supported_flags = put 65 true flags.supported_flags;
  supported_flags_mask = set_bit 0 3;
}

add_flags_bound_example :
    (9 ≡ flags.super_admin)
    × (length {A = ℕ} (65 ∷ []) ≡ length {A = ℕ} (3 ∷ []))
    × (length {A = ℕ} (65 ∷ []) ≤ 255)
unfolding add_flags add_flags_loop insert_flag check_bit
add_flags_bound_example = add_flags_bound 9 (65 ∷ []) (3 ∷ []) flags flagged refl

-- Roles as a function, and payments that always succeed, on a world that counts them.
abbrev pub roles : AccessControl (ℕ → Address → Bool)
roles = record {
  no_roles = λ _ _. false;
  has_role = λ role a s. s role a;
  setup_role = λ role a s r x. r == role && x == a || s r x;
  has_role-no_roles = λ role a. refl;
  has_role-setup_role = λ role r a x s. refl;
}

abbrev pub payments : Payments ℕ
payments = record {
  send_ether = λ _ _ w. some (w + 1);
  safe_transfer_from = λ _ _ _ _ w. ok (w + 1);
}

abbrev pub handler : ChargeHandler payments roles 1
handler = record { roles = λ r a. r == 1 && a == 70; approvals = λ _ _ _ _. 0 }

abbrev pub charge : Charge
charge = record { value = 7; charge_type = erc20; token = 90; token_sender = 40; recipient = 30 }

abbrev spending : List Spending.Call
spending = call_approve 40 70 90 10 5 ∷ call_charge 70 0 charge 5 ∷ call_charge 70 0 charge 5 ∷ []

abbrev key : Key
key = record { user = 40; gateway = 70; token = 90; network = 5 }

run_spends_example :
    (Spending.run payments roles 1 key spending (handler, 0)).0
      + allowance key (Spending.run payments roles 1 key spending (handler, 0)).1.0.approvals
    ≤ allowance key handler.approvals + total_granted payments roles 1 key spending
run_spends_example = run_spends payments roles 1 key spending (handler, 0)

check_bit-add_flags_to_bitmask_example :
    check_bit (add_flags_to_bitmask 1 (3 ∷ 256 ∷ 4 ∷ [])) 3
    ≡ (check_bit 1 3 || any (λ index. 3 == index) (small (3 ∷ 256 ∷ 4 ∷ [])))
check_bit-add_flags_to_bitmask_example = check_bit-add_flags_to_bitmask 1 (3 ∷ 256 ∷ 4 ∷ []) 3
