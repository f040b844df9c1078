-- ===== src/Match/Callbacks.antt =====
-- subdoc/match.cc: the callbacks by the names under which the parser holds them.
use subjson.Match.Pop.{pop_callback, unique_callback, next_sibling_push_callback}
use subjson.Match.Push.{push_callback}
use subjson.Match.Tests.{err_callback}
use subjson.Parser.{Callback, ErrorCallback, Invoke, InvokeError, Parser}
use subjson.Validate.Callbacks.{validate_callback, validate_err_callback}

unfoldable pub invoke : Parser → Invoke
unfolding push_callback pop_callback unique_callback next_sibling_push_callback validate_callback
invoke p Callback.push_callback action lvl at j = push_callback p lvl at j
invoke p Callback.pop_callback action lvl at j = pop_callback lvl j
invoke p Callback.unique_callback action lvl at j = unique_callback action lvl at j
invoke p Callback.next_sibling_push_callback action lvl at j =
    next_sibling_push_callback action lvl j
invoke p Callback.validate_callback action lvl at j = validate_callback action lvl j

unfoldable pub invoke_error : InvokeError
unfolding err_callback validate_err_callback
invoke_error ErrorCallback.err_callback e j = err_callback e j
invoke_error ErrorCallback.validate_err_callback e j = validate_err_callback e j
