-- ===== src/Tests/Openings.antt =====
-- A new file that is opened twice, and a client whose second request is answered.
use tenso.Prelude.{ℕ, zero, suc, ◌≡◌, refl, String, none, some, []}
use tenso.Types.{DecodedBlock}
use tenso.Storage.{ok}
use tenso.Schema.{File, open_conn, database_of, new_catalog}
use tenso.Schema.Opened.{migrated, loaded, open_conn_lem}
use tenso.Retry.{Answer}
use tenso.Rpc.{RpcError, Decoded, SerdeJson, FromValue}
use tenso.Rpc.Client.{Reqwest, RpcClient, decoded, get_block}
use tenso.Fetch.Client.{get_block_lem}
use tenso.Tests.Slots.{no_fault}
use tenso.Tests.Trades.{whole}

abbrev new_file : File whole
new_file = record { catalog = new_catalog whole; clock = 0 }

abbrev opened_file : File whole
opened_file = record { catalog = migrated whole (new_catalog whole); clock = 10 }

opened : open_conn whole no_fault (ok new_file) ≡ ok opened_file
unfolding open_conn tenso.Schema.execute_batch tenso.Schema.apply
opened = refl

open_conn_example :
    (database_of whole opened_file ≡ some (loaded whole (new_catalog whole) 10))
    × ((file : File whole)
        → open_conn whole no_fault (ok opened_file) ≡ ok file
        → file.catalog ≡ opened_file.catalog)
open_conn_example = open_conn_lem whole no_fault new_file opened_file opened

-- Values of JSON by their texts alone.
abbrev json : SerdeJson
json = record {
  J = String;
  get = λ value key. none;
  as_str = λ value. some value;
  as_i64 = λ value. none;
  from_value = λ value. FromValue.envelope (some (record { block_time = none; transactions = [] }));
}

abbrev reply : ℕ → Answer String String
reply zero = Answer.err "reset"
reply (suc n) = Answer.ok "block"

abbrev http : Reqwest json
http = record {
  object = λ fields. "object";
  array = λ items. "array";
  string = λ text. text;
  number = λ n. "number";
  boolean = λ b. "boolean";
  as_u64 = λ value. none;
  show = λ value. value;
  post = λ endpoint body n. reply n;
}

abbrev client : RpcClient
client = record { endpoint = "http://127.0.0.1:8899" }

second_answer :
    get_block json http client 7 1
    ≡ Decoded.block (record { slot = 7; block_time = none; transactions = [] })
unfolding get_block tenso.Rpc.Client.get_block_raw tenso.Rpc.decode_get_block_json
    tenso.Decode.decode_block tenso.Decode.decode_transactions
second_answer = refl

get_block_example :
    (a : Answer RpcError DecodedBlock) × (get_block json http client 7 1 ≡ decoded a)
    × ((block : DecodedBlock) → a ≡ Answer.ok block → block.slot ≡ 7)
get_block_example = get_block_lem json http client 7 1
