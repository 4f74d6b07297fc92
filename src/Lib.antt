-- ===== src/Lib.antt =====
-- A model of the core logic of rubixgoplatform, a node of the Rubix network, in nine parts.
--
-- Nlss/ is nlss/: secret sharing of byte slices. `Nlss/Bits` is nlss/util.go (ConvertToBitString,
-- ConvertBitString), `Nlss/Tables` and `Nlss/Share` are nlss/secretshare.go (the tables LA, V4, V8
-- and G; GenArray, MultMatrix, CheckComply, Starts), `Nlss/Tree` and `Nlss/Combine` are
-- nlss/interact4tree.go (ShareCreate, CheckShare, Gen2Shares; Combine2Shares, GenShares,
-- CombineShares). A byte slice is a list of numbers, a string the list of its bytes. Randomness is
-- an argument, the list of the values that are still to be drawn; a function that needs more draws
-- than there are returns `none`, like one that panics. CheckComply calls itself without a bound: its
-- fuel is one round more than there are draws, and each round takes a draw, so that the draws run
-- out before the fuel. ConvertBitString's fuel is the length of its string and one more, since each
-- round shortens what is left.
--
-- Storage is core/storage/storage_db.go over wrapper/adapter/adapter.go. The object mapper below is
-- not part of the repository: `Storage/Rows` has it as a parameter, one table with a primary key and
-- what is documented of its calls. A call may fail, and a failed call changes nothing.
-- `Storage/Memory` is a table in memory that meets these laws, on which the examples run.
--
-- Wallet/ is core/wallet/token.go, the methods on the table of RBT tokens, each a function from the
-- table to a result and the table that it leaves, also on an error. `Wallet/Tokens` reads, locks and
-- pledges, `Wallet/Release` releases, commits, transfers and removes; the other modules are
-- properties: `Wallet/Moves` says which rows may change and how, and `Wallet/Calls` is any sequence
-- of the calls that change no more than the status of tokens, `Wallet/Settling` the rows after a
-- commitment or a transfer, `Wallet/Closest` the choice of GetCloserToken. A call is one step: most
-- methods hold the wallet's mutex, and the interleavings of those that do not (GetCloserToken,
-- ReleaseAllLockedTokens, UnlockLockedTokens) are not modelled. A text is a number, since texts are
-- only compared, 0 for the empty one. A token value, a float64 that the program keeps at three
-- decimals, is a number of thousandths. The number of tokens that GetWholeTokens is asked for is not
-- negative, and the rows of a query come in any order, also where the source asks for one
-- (GetAllPartTokens). What UnpledgeWholeToken reads of the latest block (GetLatestTokenBlock,
-- GetTransType) is one argument. `Wallet/StateHashes` is the table of token state hashes
-- (AddTokenStateHash, RemoveTokenStateHash and the others), `Wallet/StateHistory` its properties.
--
-- TokenAuth is token/token_auth.go with the table of token/token_mapping.go: the text of an RBT token
-- (GetTokenString, GetLevelOneTokenString) and its validation (ValidateWholeToken, CheckWholeToken).
-- The SHA-256 of a number's decimal text is a parameter, a function from numbers to texts. The search
-- of calcSHA256 recurses on the numbers below its bound. Texts are ASCII; a panic, an error and a
-- value are the three outcomes of a call.
--
-- Util is util/util.go as far as signatures need it: bits as arrays of integers (ByteArraytoIntArray,
-- BitstreamToBytes and others), GetPos, and RandomPositions, the positions of the bits that a signature
-- discloses. Did is did/basic.go, a DID in basic mode: Sign and NlssVerify over the bytes of the
-- pictures. SHA3-256 and the signature scheme are the record `Crypto`; `Util/Blocks` and
-- `Util/Positions` follow the positions through the share, `Did/Verifies` and `Did/Signs` put them
-- together with Nlss/. BitstreamToBytes has as fuel the length of its text and one more.
--
-- PartTokens is core/part_token.go on top of Wallet/: GetTokens collects tokens for an amount, and
-- createPartToken splits a token. The work on token chains (credentials, IPFS, blocks) is the record
-- `ChainWork`, which says for each step whether it succeeds. `PartTokens/Split` is about
-- createPartToken, `PartTokens/Adding` and `PartTokens/Gather` are about GetTokens. A panic there is
-- the error `nil_pointer`.
--
-- Blocks is what block/block.go and block/transaction.go say of the tokens of a block (GetBlockNumber,
-- GetBlockID, newTransToken and others), on a block that is decoded: CBOR is a library. TokenChain is
-- core/wallet/token_chain.go: the keys under which blocks are stored (tcsKey, old2NewKey), and
-- `TokenChain/Adding` and `TokenChain/Together` the operations (addBlock, getBlock, clearBlocks,
-- removeTokenChainBlockLatest; addBlocks), `TokenChain/AllBlocks` getAllBlocks,
-- over LevelDB, the record `Level` with the order in which its iterators walk.
-- `TokenChain/Keys` is the order of keys, `TokenChain/Latest`, `TokenChain/Stored` and
-- `TokenChain/Appends` are about addBlock, `TokenChain/Replays` about addBlocks, `TokenChain/Links`
-- about the next block's entry; `TokenChain/Memory` is a store in memory. Finding the latest block starts again after old keys are
-- renewed: that is its fuel, of which a chain without old keys needs one. A reference is followed with
-- fuel for two steps, since what addBlock stores under a reference is a block.
--
-- Prelude/Outcome has the three outcomes of a call: a value, an error, a panic.
--
-- Not modelled: log messages, signatures and contracts inside blocks, fungible tokens, NFTs and
-- smart contracts, the consensus of quorums, and all input and output. Examples/ runs the
-- definitions at small inputs.
pub mod Prelude
pub mod Nlss
pub mod Storage
pub mod Wallet
pub mod Examples
pub mod TokenAuth
pub mod Util
pub mod Did
pub mod PartTokens
pub mod Blocks
pub mod TokenChain
