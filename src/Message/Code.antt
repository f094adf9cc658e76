-- ===== src/Message/Code.antt =====
-- The code, the error code and the fragment's id survive the header.
use cmu_mixnet.Prelude.{◌≡◌, refl, Bool, true, false, some}
use cmu_mixnet.Message.{MessageType, noop, code_to_type, code_is_request, code_create}

-- The direction and the type can be read back from the code that they make.
pub code_create_lem :
    (request : Bool) (type : MessageType)
    → (code_is_request (code_create request type) ≡ request)
      × (code_to_type (code_create request type) ≡ some type)
unfolding code_create code_is_request code_to_type
code_create_lem true noop = (refl, refl)
code_create_lem true _ = (refl, refl)
code_create_lem false noop = (refl, refl)
code_create_lem false _ = (refl, refl)
