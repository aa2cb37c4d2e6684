-- ===== src/Lib.antt =====
-- Verification of the on-chain identity gateway: gateway tokens, which a gatekeeper issues to an
-- owner on a gatekeeper network, on Solana and on Ethereum-like chains.
--
-- The Solana part has an on-chain program (solana/program), a client library that derives addresses,
-- reads tokens and builds instructions (solana/gateway-ts), and a gatekeeper library that builds,
-- signs and sends transactions with these instructions (solana/gatekeeper-lib). Other
-- programs check a token by solana/program/src/lib.rs. The Ethereum part has the contracts
-- (ethereum/smart-contract): GatewayToken, which charges through ChargeHandler, takes flags from
-- FlagsStorage and is asked by gated contracts; and the client library (ethereum/gateway-eth-ts),
-- which calls GatewayToken directly or through a forwarder that takes signed requests.
--
-- Common: tests, lists, results, integers over the native numbers, and actions on a world.
-- Solana.Web3: what the client takes from @solana/web3.js, bn.js and borsh, as parameters.
-- Solana.Seed, Solana.Address: solana/gateway-ts/src/lib/util.ts (numToBuffer,
--   getGatewayTokenAddressForOwnerAndGatekeeperNetwork, getGatekeeperAccountAddress,
--   getFeatureAccountAddress, gatekeeperExists). The recursion of numToBuffer is on accessibility.
-- Solana.Token: solana/gateway-ts/src/types/index.ts, src/lib/GatewayTokenData.ts, src/lib/solanaBorsh.ts.
-- Solana.Query: solana/gateway-ts/src/index.ts (findGatewayTokensForOwnerAndNetwork, findGatewayToken,
--   getGatewayToken), at one state of the chain; its Accounts: findGatewayTokens, onGatewayTokenChange and
--   onGatewayToken.
-- Solana.Program: solana/program/src/state.rs; Solana.Program.Process: the handlers of
--   solana/program/src/processor.rs, on a ledger from keys to accounts; Solana.Program.Runs: sequences
--   of instructions, where one that fails leaves the ledger as it was.
-- Solana.Instruction: solana/gateway-ts/src/lib/instruction.ts; Solana.Instruction.Wire: its messages as
--   solana/program/src/instruction.rs reads them.
-- Solana.Integration: the checks that other programs make of a token, in solana/program/src/lib.rs and
--   solana/anchor/src/lib.rs.
-- Solana.Agreement: where the client and the program must say the same.
-- Solana.Gatekeeper: solana/gatekeeper-lib/src: util/types.ts and util/transaction.ts (Options),
--   util/charge.ts (Charge), util/connection.ts (Sending), util/account.ts (Airdrop),
--   service/gatekeeper-service.ts (Service), service/gatekeeper-network-service.ts (Network).
-- Ethereum.Client: ethereum/gateway-eth-ts/src/service/GatewayTsInternal.ts; Ethereum.Utils and
--   Ethereum.Reads: src/utils and listNetworks; Ethereum.Forwarder: src/service/GatewayTsForwarder.ts,
--   src/service/GatewayTsTransaction.ts and src/utils/metatx.ts.
-- Contracts.Gateway: ethereum/smart-contract/contracts/GatewayToken.sol and TokenBitMask.sol: the state
--   and the checks; its Reads: what it answers; its Tokens and Networks: the calls that change them;
--   Calls: any sequence of calls, where one that reverts changes nothing. A call that charges goes to the charge handler last.
-- Contracts.Access: ParameterizedAccessControl.sol; Contracts.Context: MultiERC2771Context.sol;
--   Contracts.Forwarder: FlexibleNonceForwarder.sol; Contracts.Flags: FlagsStorage.sol;
--   Contracts.Charges: ChargeHandler.sol and library/InternalTokenApproval.sol; Contracts.BitMask:
--   library/BitMask.sol; Contracts.Gated: Gated.sol and its two variants with forwarders.
-- Contracts.Composed: the contracts with each other and with the client library.
-- The modules named Tests hold concrete packages, chains and contracts.
--
-- State is passed explicitly: a handler of the program maps a ledger to a ledger or an error, and an
-- awaited call of the client maps a world to a result and a world. Keys, derivation, signing, borsh, the
-- RPC calls, ramda's omit and ethers, and for the contracts the ERC3525 base contract, OpenZeppelin's
-- AccessControl, signature recovery, token transfers, sending ether and the hashes of the role names are
-- parameters, with what their documentation states as hypotheses. A mapping is a function, an address a
-- number; a contract that is called cannot call back, but for the forwarder's, which is guarded. The loops are structural; airdropTo polls thirty times, as its counter does.
--
-- Not modelled: the contracts' events and upgrades, the command lines, deployment, generated contract types, the
-- superseded v0 packages, and the waiting between polls. The functions that the ERC3525 base contract
-- adds to GatewayToken are not among its calls: they are code of another project.
pub mod Common
pub mod Solana
pub mod Contracts
pub mod Ethereum
