-- ===== src/Examples/LargeUpdate.antt =====
-- The resource of examples/coap/coap-plugtest-server/resources/res-plugtest-large-update.c, which is
-- put and got in blocks. A block's number and size stay below 2 ^ 20 and 2 ^ 11 in CoAP, so that
-- their product fits 32 bits.
pub mod Blocks
mod Tests
use nsdscourse.Base.{
  ℕ, ◌+◌, ◌-◌, ◌*◌, Bool, true, false, Option, none, some, List, [], ◌∷◌, ◌++◌, length, take, drop,
  replicate, min, leb, ltb, ◌==◌, if◌then◌else◌,
}

abbrev pub max_plugfest_body : ℕ
max_plugfest_body = 2048

pub record Resource : Type 0 where
  pub large_update_size : ℕ
  pub large_update_store : List ℕ
  pub large_update_ct : ℕ

-- APPLICATION_OCTET_STREAM is 42.
abbrev pub start : Resource
start = record {
  large_update_size = 0;
  large_update_store = replicate max_plugfest_body 0;
  large_update_ct = 42;
}

pub data Status : Type 0 where
  ok_2_05 changed_2_04 bad_request_4_00 bad_option_4_02 request_entity_too_large_4_13 : Status

-- The payloads with a text of their own, and some bytes.
pub data Payload : Type 0 where
  empty block_out_of_scope no_content_type no_payload max_size : Payload
  bytes : List ℕ → Payload

-- The status is 2.05 unless it is set.
pub record Response : Type 0 where
  pub status : Status
  pub payload : Payload
  pub content_format : Option ℕ
  pub block1 : Option (ℕ × ℕ)

abbrev pub failed : Status → Payload → Response
failed status payload = record {
  status = status;
  payload = payload;
  content_format = none;
  block1 = none;
}

-- The response, and the offset then; `none` is -1.
unfoldable pub res_get_handler : ℕ → ℕ → Resource → Response × Option ℕ
res_get_handler preferred_size offset r =
    let response : Response = record {
      status = ok_2_05;
      payload = bytes (
          take (min (r.large_update_size - offset) preferred_size)
            (drop offset r.large_update_store));
      content_format = some r.large_update_ct;
      block1 = none;
    } in
    let moved = offset + preferred_size in
    if leb r.large_update_size offset
    then (failed bad_option_4_02 block_out_of_scope, some offset)
    else (response, if leb r.large_update_size moved then none else some moved)

-- `memcpy` into the store.
abbrev pub copy_at : List ℕ → ℕ → List ℕ → List ℕ
copy_at store at incoming = take at store ++ (incoming ++ drop (at + length incoming) store)

-- The content format and the payload of the request, and the number and the size of its block.
unfoldable pub res_put_handler : Option ℕ → List ℕ → ℕ → ℕ → Resource → Response × Resource
res_put_handler none incoming block1_num block1_size r =
    (failed bad_request_4_00 no_content_type, r)
res_put_handler (some ct) incoming block1_num block1_size r =
    let at = block1_num * block1_size in
    if length incoming == 0
    then (failed bad_request_4_00 no_payload, r)
    else if leb (at + length incoming) max_plugfest_body
    then (
      record {
        status = changed_2_04;
        payload = empty;
        content_format = none;
        block1 = some (block1_num, block1_size);
      },
      record {
        large_update_size = at + length incoming;
        large_update_store = copy_at r.large_update_store at incoming;
        large_update_ct = ct;
      },
    )
    else (failed request_entity_too_large_4_13 max_size, r)
