-- ===== src/Examples/Sample.antt =====
-- Packages small enough to compute with: a trie that is a function, a hash that keeps its input, and
-- signatures that are valid if they name the message.
use ori.Base.{
  ap, ℕ, ◌+◌, ◌*◌, ◌%◌, ◌^◌, ◌<◌, ◌≡◌, refl, true, Option, none, some, [], ◌∷◌, arith, ◌==◌,
  if◌then◌else◌, length, take, length-append,
}
use ori.Types.Hash.{
  Bytes, same_bytes, is_filled, Hash, Address, be_bytes, length-be_bytes, as_bytes, as_slice,
  from_bytes, be_value,
}
use ori.Types.Ledger.{Account, LockingBalance, Validator, ListEntry}
use ori.Types.Message.{MsgTransfer, MsgValidatorCreate, SignatureInfo, Transaction, TxHashType}
use ori.Types.Block.{Header, VerificationItem, BlockProof, Block}
use ori.External.{kept_value, Trie, Store, Codecs, External}
use ori.Crypto.{blake2b_256}
use ori.Balance.{address_key}
use ori.Staking.{head_key, key_index}
use ori.Staking.Linked.{KeysApart}
use ori.Examples.Wire.{
  Wire, nat_wire, ◌&◌, iso_wire, list_wire, option_wire, option_put-filled, codec,
}

abbrev bytes_wire : Wire Bytes
bytes_wire = list_wire nat_wire

abbrev account_wire : Wire Account
account_wire =
    iso_wire (λ a. (a.balance, (a.nonce, a.locked_balance)))
      (λ (b, (n, l)). record { balance = b; nonce = n; locked_balance = l }) (λ a. refl)
      (nat_wire & nat_wire & nat_wire)

abbrev locking_wire : Wire LockingBalance
locking_wire =
    iso_wire (λ d. (d.amount, d.height)) (λ (a, h). record { amount = a; height = h }) (λ d. refl)
      (nat_wire & nat_wire)

abbrev validator_wire : Wire Validator
validator_wire =
    iso_wire
      (λ v. (
        v.address,
        (
          v.pubkey,
          (
            v.balance,
            (
              v.effective_balance,
              (v.activate_height, (v.exit_height, (v.deposit_queue, v.unlocked_queue))),
            ),
          ),
        ),
      ))
      (λ (a, (k, (b, (e, (h, (x, (d, u))))))). record {
        address = a;
        pubkey = k;
        balance = b;
        effective_balance = e;
        activate_height = h;
        exit_height = x;
        deposit_queue = d;
        unlocked_queue = u;
      })
      (λ v. refl)
      (nat_wire
        & bytes_wire
        & nat_wire
        & nat_wire
        & nat_wire
        & nat_wire
        & list_wire locking_wire
        & list_wire locking_wire)

abbrev entry_wire : Wire (ListEntry Validator)
entry_wire =
    iso_wire (λ e. (e.pre, (e.next, e.payload)))
      (λ (p, (n, v)). record { pre = p; next = n; payload = v }) (λ e. refl)
      (option_wire nat_wire & option_wire nat_wire & validator_wire)

abbrev transfer_wire : Wire MsgTransfer
transfer_wire =
    iso_wire (λ m. (m.receiver, m.value)) (λ (r, v). record { receiver = r; value = v }) (λ m. refl)
      (nat_wire & nat_wire)

abbrev create_wire : Wire MsgValidatorCreate
create_wire =
    iso_wire (λ m. (m.pubkey, m.amount)) (λ (k, v). record { pubkey = k; amount = v }) (λ m. refl)
      (bytes_wire & nat_wire)

abbrev tx_hash_wire : Wire TxHashType
tx_hash_wire =
    iso_wire (λ t. (t.chainid, (t.nonce, (t.gas_price, (t.gas, (t.call, t.payload))))))
      (λ (i, (n, (p, (g, (c, b))))). record {
        chainid = i;
        nonce = n;
        gas_price = p;
        gas = g;
        call = c;
        payload = b;
      })
      (λ t. refl) (nat_wire & nat_wire & nat_wire & nat_wire & bytes_wire & bytes_wire)

abbrev sign_wire : Wire SignatureInfo
sign_wire =
    iso_wire (λ i. (i.r, (i.s, i.p))) (λ (r, (s, p)). record { r = r; s = s; p = p }) (λ i. refl)
      (nat_wire & nat_wire & nat_wire)

abbrev tx_wire : Wire Transaction
tx_wire =
    iso_wire
      (λ t. (t.sender, (t.nonce, (t.gas_price, (t.gas, (t.call, (t.payload, t.sign_data)))))))
      (λ (a, (n, (p, (g, (c, (b, i)))))). record {
        sender = a;
        nonce = n;
        gas_price = p;
        gas = g;
        call = c;
        payload = b;
        sign_data = i;
      })
      (λ t. refl) (nat_wire & nat_wire & nat_wire & nat_wire & bytes_wire & bytes_wire & sign_wire)

abbrev header_wire : Wire Header
header_wire =
    iso_wire
      (λ h. (
        h.height,
        (
          h.parent_hash,
          (
            h.slot,
            (
              h.vrf_output,
              (
                h.vrf_proof.low,
                (h.vrf_proof.high, (h.tx_root, (h.sign_root, (h.state_root, h.time)))),
              ),
            ),
          ),
        ),
      ))
      (λ (n, (p, (s, (o, (l, (u, (t, (i, (r, m))))))))). record {
        height = n;
        parent_hash = p;
        slot = s;
        vrf_output = o;
        vrf_proof = record { low = l; high = u };
        tx_root = t;
        sign_root = i;
        state_root = r;
        time = m;
      })
      (λ h. refl)
      (nat_wire & nat_wire & nat_wire & nat_wire & nat_wire & nat_wire & nat_wire & nat_wire
        & nat_wire & nat_wire)

abbrev item_wire : Wire VerificationItem
item_wire =
    iso_wire (λ i. (i.msg, i.signs)) (λ (m, s). record { msg = m; signs = s }) (λ i. refl)
      (nat_wire & sign_wire)

abbrev proof_wire : Wire BlockProof
proof_wire =
    iso_wire (λ p. (p.low, (p.high, p.kind)))
      (λ (l, (h, k)). record { low = l; high = h; kind = k }) (λ p. refl)
      (nat_wire & nat_wire & nat_wire)

abbrev block_wire : Wire Block
block_wire =
    iso_wire (λ b. (b.header, (b.signs, (b.txs, b.proofs))))
      (λ (h, (s, (t, p))). record { header = h; signs = s; txs = t; proofs = p }) (λ b. refl)
      (header_wire & list_wire item_wire & list_wire tx_wire & list_wire proof_wire)

pub entry_filled : (e : ListEntry Validator) → is_filled ((codec entry_wire).serialize e) ≡ true
entry_filled e = option_put-filled nat_wire e.pre _

abbrev codecs : Codecs
codecs = record {
  account = codec account_wire;
  entry = codec entry_wire;
  transfer = codec transfer_wire;
  validator_create = codec create_wire;
  amount = codec nat_wire;
  tx_hash = codec tx_hash_wire;
  header = codec header_wire;
  block = codec block_wire;
  txs = codec (list_wire tx_wire);
  signs = codec (list_wire item_wire);
  account_filled = λ a. refl;
  entry_filled = entry_filled;
}

-- The root says nothing here: the database is what it holds.
abbrev trie : Trie
trie = record {
  Db = Hash → Option Bytes;
  is_open = λ d r. true;
  get = λ d r k. d k;
  insert = λ d r k v. ((λ j. if j == k then kept_value v else d j), r);
  remove = λ d r k. ((λ j. if j == k then none else d j), r);
  flush = λ d. d;
  get-insert = λ d r k v j h. refl;
  get-remove = λ d r k j h. refl;
  get-flush = λ d r j. refl;
  is_open-insert = λ d r k v h. refl;
  is_open-remove = λ d r k h. refl;
  is_open-flush = λ d r. refl;
}

abbrev store : Store
store = record {
  Db = Bytes → Option Bytes;
  get = λ d k. d k;
  put = λ d k v j. if same_bytes j k then some v else d j;
  remove = λ d k j. if same_bytes j k then none else d j;
  get-put = λ d k v j. refl;
  get-remove = λ d k j. refl;
}

abbrev tag : ℕ → ℕ
tag n = if n == 64 then 1 else if n == 32 then 3 else 0

-- The start of the input, with a tag of its length in the last two bits.
abbrev digest : Bytes → Hash
digest bs = (be_value (take 32 bs) % 2 ^ 250) * 4 + tag (length bs)

pub digest-lt : (bs : Bytes) → digest bs < 2 ^ 256
digest-lt bs = ground arith

abbrev pub stamp : Hash → Hash → SignatureInfo
stamp key msg = record { r = msg; s = 0; p = key }

pub sample_verify-sign :
    (key public msg : Hash) (info : SignatureInfo)
    → some key ≡ some public
    → some (stamp key msg) ≡ some info
    → (info.r == msg) ≡ true
sample_verify-sign key public msg info e f = ground (arith, ap get_r f)
  where
    get_r : Option SignatureInfo → ℕ
    get_r none = 0
    get_r (some i) = i.r

abbrev pub sample : External
sample = record {
  trie = trie;
  store = store;
  codecs = codecs;
  blake2b = digest;
  blake2b-lt = digest-lt;
  verify = λ key msg signed. signed.r == msg;
  to_pubkey = λ key. some key;
  sign = λ key msg. some (record { r = msg; s = 0; p = key });
  verify-sign = sample_verify-sign;
}

digest_64 : (bs : Bytes) → length bs ≡ 64 → blake2b_256 sample bs % 4 ≡ 1
unfolding blake2b_256
digest_64 [] h = absurd (omega arith)
digest_64 (b ∷ bs) h = ground arith

digest_32 : (bs : Bytes) → length bs ≡ 32 → blake2b_256 sample bs % 4 ≡ 3
unfolding blake2b_256
digest_32 [] h = absurd (omega arith)
digest_32 (b ∷ bs) h = ground arith

key_index_mod : (a : Address) → key_index sample a % 4 ≡ 1
unfolding key_index as_bytes head_key
key_index_mod a = digest_64 _ (
    ground (
      arith,
      length-append (as_bytes (from_bytes (as_slice a))) (as_bytes (from_bytes (be_bytes 8 2))),
      length-be_bytes 32 (from_bytes (as_slice a)),
      length-be_bytes 32 (from_bytes (be_bytes 8 2)),
    ))

address_key_mod : (a : Address) → address_key sample a % 4 ≡ 3
unfolding address_key as_bytes
address_key_mod a = digest_32 _ (length-be_bytes 32 (from_bytes (as_slice a)))

head_key_lem : head_key ≡ 2
unfolding head_key from_bytes be_bytes be_value
head_key_lem = refl

pub sample_apart : KeysApart sample
sample_apart = record {
  head = λ a e. omega (arith, key_index_mod a, head_key_lem, e);
  account = λ a b e. omega (arith, address_key_mod a, key_index_mod b, e);
  account_head = λ a e. omega (arith, address_key_mod a, head_key_lem, e);
}
