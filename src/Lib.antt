-- ===== src/Lib.antt =====
-- Verification of PantheonChain.
--
-- The program is a three-layer chain. Its first layer keeps three assets (TALANTON, DRACHMA, OBOLOS):
-- transactions spend coins and make new ones, blocks carry a coinbase and transactions, and the chain
-- state follows the blocks. This library models that core: from the bytes of a transaction to a chain
-- that connects and disconnects blocks.
--
-- Parts, and the files of the repository that they model:
--   Prelude      shared names, Boolean tests, lists over the native numbers, 64-bit words, and
--                `std::map` as an association list in key order (Maps, Ascending).
--   Primitives   layer1-talanton/core/primitives. SafeMath and Amount: checked arithmetic. Asset: the
--                supply tables. Bytes and Compact: integers and sizes as bytes. Transaction: the
--                structures and `IsValid`. Wire: `Serialize` and `Deserialize`; Wire/Signing:
--                `SerializeForSigning` with the step of layer1-talanton/wallet/wallet.cpp that writes
--                a signature. Merkle: the merkle tree. Block: header and block.
--   Consensus    layer1-talanton/core/consensus. Issuance: rewards and supplies. Difficulty: compact
--                targets, the proof-of-work test, the retarget.
--   Chainstate   layer1-talanton/core/chainstate. Utxo: coins. Amounts and Tallies: amounts per asset.
--                Supply: `ChainState`. Spending: what a transaction does to the coins. Chain: `Chain`,
--                with `ConnectBlock` and `DisconnectBlock`.
--   Validation   layer1-talanton/core/validation: `TransactionValidator` and `BlockValidator`, beside
--                what `Chain` tests (Agreement, Blocks, Repeats).
--   Governance   layer1-talanton/governance. Vesting: `VestingRegistry`, with its arithmetic (Formula),
--                the effect of each call (Steps) and histories of calls (Claims). Treasury: the
--                tracks (Funds), the multi-signature spends (Reserve), grants (Grants), and what the
--                treasury holds under every call (Books). EventLog: the log. FeeRouter: the split of a
--                fee, and the router with its treasury and log (Route). Emergency: `EmergencyCouncil`,
--                with its quorum.
--   Settlement   layer1-talanton/settlement. Multisig: policies and aggregated signatures, with what a
--                verification accepts (Keys, Quorum). Escrow: the three locks, and their bytes (RoundTrip).
--                DestinationTag: the tags with their memos, and UTF-8 (Utf8, Utf8/Decode).
--   Evm          layer3-obolos/evm. Word: the 256-bit words and their operations, with the numbers they stand
--                for (Value, Linear, Bits, Division, Product). State: accounts and storage. Opcodes: the
--                gas. Machine: stack, memory and gas; Machine/Execute: the opcodes and the loop, with
--                its bounds (Bounds, Runs) and its fuel (Fuel).
-- A class is a record of its fields, a method is a function from the state to the result and the state,
-- a loop is a recursion on its list. Machine integers are natural numbers with the wrap-around written
-- out (`add64`, `% u32_mod`). A reader of bytes gives a value and the rest, refuses (`nullopt`), or
-- throws. A method that returns false keeps what it had changed before.
--
-- Parameters: `crypto::SHA256d` is any function from byte strings to hashes, a section parameter.
-- `crypto::SHA256`, `Schnorr::ValidatePublicKey` and `Schnorr::Verify` are parameters of the signature checks.
--
-- Fuel: the merkle loop has as many rounds as there are hashes, which is proved to be enough; the
-- halving loop has the 64 rounds of the source; the mantissa of a retarget is a 64-bit word, which five
-- shifts by a byte make small; a run of the virtual machine has as much fuel as its code has bytes, which
-- is enough, since no opcode moves the program counter back.
--
-- Not modelled: the copies that a transaction keeps of its identifier and size (cached_txid_,
-- cached_serialized_size_), which would stay where a field changes after the first use;
-- the other offices of the governance, the mempool, the network, the node, storage,
-- cryptographic primitives, wallets but for the step above, the second layer, the tries and the node of
-- the third layer, and the user interfaces. They are input and output, device code, or parts that a later extension takes up.
pub mod Prelude
pub mod Primitives
pub mod Consensus
pub mod Chainstate
pub mod Validation
pub mod Governance
pub mod Settlement
pub mod Evm
