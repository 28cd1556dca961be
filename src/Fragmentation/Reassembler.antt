-- ===== src/Fragmentation/Reassembler.antt =====
-- src/backend/fragmentation/Reassembler.cpp. The loop that prints the buffer leaves an empty entry
-- at each number up to `fragment_id` that has none, and is kept for that.
use networking_project_chat.Prelude.{
  ℕ, zero, suc, ◌+◌, List, [], ◌∷◌, ◌++◌, Bool, true, false, not, ◌&&◌, u8, u16, if◌then◌else◌,
}
use networking_project_chat.Prelude.Assoc.{find, insert_or_assign, erase, contains, at_or}

pub record FragmentSet : Type 0 where
  pub fragments : List (ℕ × List ℕ)
  pub is_complete : Bool
  pub total_fragments : ℕ
  pub mf_recv : Bool

pub record Reassembler : Type 0 where
  pub buffers : List (ℕ × FragmentSet)

abbrev pub no_fragments : FragmentSet
no_fragments = record { fragments = []; is_complete = false; total_fragments = 0; mf_recv = false }

abbrev pub no_buffers : Reassembler
no_buffers = record { buffers = [] }

abbrev pub is_empty : List ℕ → Bool
is_empty [] = true
is_empty (b ∷ bs) = false

-- `fs.fragments[i]`.
abbrev pub payload_at : ℕ → List (ℕ × List ℕ) → List ℕ
payload_at i m = at_or [] (find i m)

-- What the printing loop leaves at the keys from `i` on, `left` of them.
unfoldable pub touch_from : ℕ → ℕ → List (ℕ × List ℕ) → List (ℕ × List ℕ)
touch_from zero i m = m
touch_from (suc left) i m =
    touch_from left (i + 1) (if contains i m then m else insert_or_assign i [] m)

-- The loop that decides `is_complete`.
unfoldable pub complete_from : ℕ → ℕ → List (ℕ × List ℕ) → Bool → Bool
complete_from zero i m complete = complete
complete_from (suc left) i m complete =
    complete_from left (i + 1) m
      (if contains i m then complete && not (is_empty (payload_at i m)) else false)

-- The loop that collects `full`.
unfoldable pub join_from : ℕ → ℕ → List (ℕ × List ℕ) → List ℕ → List ℕ
join_from zero i m full = full
join_from (suc left) i m full = join_from left (i + 1) m (full ++ payload_at i m)

-- The buffer of the message after a fragment, up to the test whether it is complete.
unfoldable pub stored_fragment : FragmentSet → ℕ → Bool → List ℕ → FragmentSet
unfolding touch_from complete_from
stored_fragment fs fragment_id mf payload =
    let fragments =
      touch_from (suc fragment_id) 0 (insert_or_assign fragment_id payload fs.fragments) in
    let total = if mf then fs.total_fragments else u16 (fragment_id + 1) in
    record {
      fragments = fragments;
      total_fragments = total;
      mf_recv = if mf then fs.mf_recv else true;
      is_complete = complete_from total 0 fragments true;
    }

-- Both identifiers are `uint8_t` parameters. The result is the whole message, or empty.
unfoldable pub insert_fragment : Reassembler → ℕ → ℕ → Bool → List ℕ → List ℕ × Reassembler
unfolding stored_fragment join_from
insert_fragment r msg_id fragment_id mf payload =
    let fs =
      stored_fragment (at_or no_fragments (find (u8 msg_id) r.buffers)) (u8 fragment_id) mf
        payload in
    if fs.is_complete && fs.mf_recv
    then (
      join_from fs.total_fragments 0 fs.fragments [],
      record { buffers = erase (u8 msg_id) r.buffers },
    )
    else ([], record { buffers = insert_or_assign (u8 msg_id) fs r.buffers })
