-- ===== src/Mongo/InMemory.antt =====
-- The interface met by plain lists: what the witnesses run on.
use crossbill_back.Base.{
  refl, filter, find?, modify_first, modify_all, remove_first, upsert_first, ◌∷◌,
}
use crossbill_back.Mongo.Defs.{Mongo, violated, write_if, modify_unique}

abbrev pub in_memory : Mongo
in_memory = record {
  find = filter;
  find_one = find?;
  create = λ is d xs. write_if (violated is d xs) (d ∷ xs);
  update_one = modify_first;
  update_unique = modify_unique;
  upsert = upsert_first;
  update_many = modify_all;
  delete_one = remove_first;
  find_lem = λ p xs. refl;
  find_one_lem = λ p xs. refl;
  create_lem = λ is d xs. refl;
  update_one_lem = λ p f xs. refl;
  update_unique_lem = λ is p f xs. refl;
  upsert_lem = λ p f d xs. refl;
  update_many_lem = λ p f xs. refl;
  delete_one_lem = λ p xs. refl;
}
