-- ===== src/Skeleton/Refuse.antt =====
-- The calls of `invoke` of source/table_skel.c that serve nothing.
use hash_map_storage_service.Prelude.{
  ◌≡◌, ◌∙◌, refl, ap, false, Bool, Option, none, some, ◌||◌, if◌then◌else◌, Bool-cases, inl, inr,
  arith,
}
use hash_map_storage_service.Prelude.Int.{minus_one, eqb_ℤ}
use hash_map_storage_service.Prelude.Outcome.{ret}
use hash_map_storage_service.Fifo.{Link}
use hash_map_storage_service.Message.{Message}
use hash_map_storage_service.Message.Opcode
use hash_map_storage_service.Message.Content
use hash_map_storage_service.Table.{TableT}
use hash_map_storage_service.Skeleton.{
  Server, is_refused, answer_error, dispatch, invoke_on, invoke,
}

-- The opcode is one of the six requests.
abbrev pub is_request : Message → Bool
is_request m =
    eqb_ℤ m.opcode Opcode.size
    || (eqb_ℤ m.opcode Opcode.del
        || (eqb_ℤ m.opcode Opcode.get
            || (eqb_ℤ m.opcode Opcode.put
                || (eqb_ℤ m.opcode Opcode.getkeys || eqb_ℤ m.opcode Opcode.verify))))

-- `invoke` returns -1 and leaves the server as it is without a message, and on a message that is
-- none of the six requests. Such a message is unchanged if its opcode is below 10 or above 60 or
-- its content type below 10, and becomes an error answer otherwise.
pub invoke-refuse :
    (junk : Link) (s : Server) (t : TableT) (m : Message)
    → s.table ≡ some t
    → is_request m ≡ false
    → (invoke junk s none ≡ ret (minus_one, s, none))
      × (invoke junk s (some m)
          ≡ ret (
            minus_one,
            s,
            some (
                if is_refused m
                then m
                else record m { opcode = Opcode.error; c_type = Content.none }),
          ))
unfolding invoke invoke_on dispatch answer_error
invoke-refuse junk s t m e unknown = (
  ap (λ x. invoke_on junk s x none) e,
  ap (λ x. invoke_on junk s x (some m)) e ∙ (elim (Bool-cases (is_refused m)) [
    | inl refused ↦ rw refused refl
    | inr accepted ↦ rw accepted (ground arith)
  ]),
)

-- Without a table `invoke` refuses every message.
pub invoke-no_table :
    (junk : Link) (s : Server) (m : Option Message)
    → s.table ≡ none
    → invoke junk s m ≡ ret (minus_one, s, m)
unfolding invoke invoke_on
invoke-no_table junk s m e = rw e refl
