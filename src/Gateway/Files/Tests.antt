-- ===== src/Gateway/Files/Tests.antt =====
-- Examples of the gateway beside the storage service.
use garance.Prelude.{bytes, true, [], some, ◌+◌, length, leb}
use garance.Auth.Toy.{toy}
use garance.Storage.Tables.{ℤ}
use garance.Storage.Handler.{UploadForm}
use garance.Storage.Handler
use garance.Storage.Tests.{list_store, before}
use garance.Gateway.Errors.{Transit, max_message}
use garance.Storage.Grpc
use garance.Gateway.StorageProxy.{Form, Sizes}
use garance.Gateway.StorageProxy
use garance.Gateway.Carried.{IsCarried, sent}
use garance.Gateway.Files.{as_bad_request, upload-agrees}

-- The content, and thirty bytes for the other fields.
abbrev sizes : Sizes
sizes = record {
  upload_request = λ bucket name content mime uid. length content + 30;
  download_response = λ r. length r.content + 30;
}

abbrev call : Transit
call = Transit.through

-- A file of eleven bytes, where the bucket admits ten.
abbrev big : UploadForm
big = record {
  content = bytes "hello world";
  file_name = bytes "b.txt";
  content_type = [];
  name = [];
}

upload-agrees_example :
    IsCarried
      (sent
        (leb
          (sizes.upload_request
            (bytes "photos")
            (bytes "b.txt")
            big.content
            (bytes "application/octet-stream")
            (bytes "ann"))
          max_message)
        call)
      as_bad_request
      before
      (StorageProxy.upload toy
        (λ t. [])
        list_store
        (λ a b. true)
        call
        sizes
        (some (bytes "ann"))
        (bytes "photos")
        (Form.form big)
        before)
      (Handler.upload toy list_store (bytes "photos") (some big) (some (bytes "ann")) before)
upload-agrees_example =
    upload-agrees toy (λ t. []) list_store (λ a b. true) call sizes (bytes "ann") (bytes "photos")
      big before (λ e. cc)

abbrev hour : ℤ
hour = ℤ.pos 3600
